-- ===== src/Storage/Placing.antt =====
-- Where the bytes of a write in two parts are in the data area.
use native.Mathlib.Nat.{mod-eq_of_lt, mod-eq-sub-mod}
use ringfile.Prelude.{
  ℕ, ◌+◌, ◌-◌, ◌%◌, ◌^◌, ◌≤◌, ◌<◌, ◌≡◌, refl, ap, ◌∙◌, true, false, ltb, some, List, [], ◌∷◌, arith,
  length, take, drop, get_elem?, length-drop, length-take, get_elem?-take, get_elem?-drop,
  get_elem?-none, get_elem?-lt, ◌⊎◌, inl, inr,
}
use ringfile.Storage.{Area, put, parts}
use ringfile.Storage.Wrapping.{parts_cases, round_cases}

take_at :
    (n : ℕ) (bytes : List ℕ) (i b k : ℕ)
    → get_elem? bytes i ≡ some b
    → i < n
    → k ≡ i
    → get_elem? (take n bytes) k ≡ some b
take_at n bytes i b k e h f = ap (get_elem? (take n bytes)) f ∙ (get_elem?-take n bytes i h ∙ e)

drop_at :
    (m n : ℕ) (bytes : List ℕ) (i b k : ℕ)
    → get_elem? bytes i ≡ some b
    → k < n
    → m + k ≡ i
    → get_elem? (take n (drop m bytes)) k ≡ some b
drop_at m n bytes i b k e h f =
    get_elem?-take n (drop m bytes) k h ∙ (get_elem?-drop m bytes k ∙ (ap (get_elem? bytes) f ∙ e))

length-take-drop :
    (m n : ℕ) (bytes : List ℕ) → m + n ≤ length bytes → length (take n (drop m bytes)) ≡ n
length-take-drop m n bytes h = length-take n (drop m bytes) (omega (arith, length-drop m bytes))

module _ (max : ℕ) where
  -- the area after a write of all bytes, at a reduced offset
  abbrev pub written : Area → ℕ → List ℕ → ℕ × ℕ → Area
  written d a bytes (e, s) = put (put d a (take e bytes)) 0 (take s (drop e bytes))

  put_inside :
      (d : Area) (a : ℕ) (bytes : List ℕ) (j b : ℕ)
      → a ≤ j
      → get_elem? bytes (j - a) ≡ some b
      → put d a bytes j ≡ b
  unfolding put
  put_inside d a [] j b h e = cc
  put_inside d a (c ∷ bytes) j b h e = let t : ltb j a ≡ false = ground arith in rw (t, e) refl

  put_outside :
      (d : Area) (a : ℕ) (bytes : List ℕ) (j : ℕ)
      → (j < a) ⊎ (a + length bytes ≤ j)
      → put d a bytes j ≡ d j
  unfolding put
  put_outside d a [] j h = refl
  put_outside d a (c ∷ bytes) j (inl h) = let t : ltb j a ≡ true = ground arith in rw t refl
  put_outside d a (c ∷ bytes) j (inr h) =
      let t : ltb j a ≡ false = ground arith in
      rw (t, get_elem?-none (c ∷ bytes) (j - a) (omega arith)) refl

  module _ (d : Area) (a : ℕ) (bytes : List ℕ) where
    pub written_inside :
        (i b : ℕ)
        → max < 2 ^ 63
        → a < max
        → length bytes ≤ max
        → get_elem? bytes i ≡ some b
        → written d a bytes (parts max a (length bytes)) ((a + i) % max) ≡ b
    written_inside i b hm ha hn e =
        let il = get_elem?-lt bytes i b e in
        elim (parts_cases max a (length bytes) hm ha (omega arith) hn) [
          | inl (l, p) ↦
              let q : (a + i) % max ≡ a + i = mod-eq_of_lt (omega arith) in
              rw (p, q)
                (put_outside (put d a (take (length bytes) bytes)) 0 _ (a + i) (inr (omega arith))
                  ∙ put_inside d a (take (length bytes) bytes) (a + i) b (omega arith)
                      (take_at (length bytes) bytes i b (a + i - a) e il (omega arith)))
          | inr (g, p) ↦ elim (round_cases max a i ha (omega arith)) [
            | inl (l, q) ↦
                let z = length-take-drop (max - a) (length bytes - (max - a)) bytes (omega arith) in
                rw (p, q)
                  (put_outside (put d a (take (max - a) bytes)) 0 _ (a + i) (inr (omega arith))
                    ∙ put_inside d a (take (max - a) bytes) (a + i) b (omega arith)
                        (take_at (max - a) bytes i b (a + i - a) e (omega arith) (omega arith)))
            | inr (h, q) ↦
                rw (p, q)
                  (put_inside (put d a (take (max - a) bytes)) 0 _ (a + i - max) b (omega arith) (
                    drop_at (max - a) (length bytes - (max - a)) bytes i b (a + i - max - 0) e
                      (omega arith) (omega arith)))
          ]
        ]

    pub written_outside :
        (i : ℕ)
        → max < 2 ^ 63
        → a < max
        → 0 < length bytes
        → length bytes ≤ i
        → i < max
        → written d a bytes (parts max a (length bytes)) ((a + i) % max) ≡ d ((a + i) % max)
    written_outside i hm ha hz hn hi =
        elim (parts_cases max a (length bytes) hm ha hz (omega arith)) [
          | inl (l, p) ↦
              let z = length-take (length bytes) bytes (omega arith) in
              elim (round_cases max a i ha hi) [
                | inl (k, q) ↦
                    rw (p, q)
                      (put_outside (put d a (take (length bytes) bytes)) 0 _ (a + i)
                          (inr (omega arith))
                        ∙ put_outside d a (take (length bytes) bytes) (a + i) (inr (omega arith)))
                | inr (k, q) ↦
                    rw (p, q)
                      (put_outside (put d a (take (length bytes) bytes)) 0 _ (a + i - max)
                          (inr (omega arith))
                        ∙ put_outside d a (take (length bytes) bytes) (a + i - max)
                            (inl (omega arith)))
              ]
          | inr (g, p) ↦
              let z = length-take-drop (max - a) (length bytes - (max - a)) bytes (omega arith) in
              let q : (a + i) % max ≡ a + i - max =
                mod-eq-sub-mod {n = a + i} {m = max} (omega arith)
                ∙ mod-eq_of_lt {n = a + i - max} {m = max} (omega arith) in
              rw (p, q)
                (put_outside (put d a (take (max - a) bytes)) 0 _ (a + i - max) (inr (omega arith))
                  ∙ put_outside d a (take (max - a) bytes) (a + i - max) (inl (omega arith)))
        ]

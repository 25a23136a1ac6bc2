-- ===== src/RingFile/Kept.antt =====
-- The records that stay in a file when room is made in it.
use ringfile.Prelude.{
  ℕ, ◌+◌, ◌-◌, ◌≤◌, ◌≡◌, refl, sym, ap, ltb, List, [], ◌∷◌, ◌++◌, arith, if◌then◌else◌, length,
  length-append, inl, inr, Bool-cases, ltb→lt, ltb_false→le,
}
use ringfile.RingFile.Records.{encode, total}

-- The records that are left where so much room is needed.
unfoldable pub evict : ℕ → ℕ → List (List ℕ) → List (List ℕ)
evict max need [] = []
evict max need (bytes ∷ records) =
    let rest = evict max need records in
    if ltb (max - total (bytes ∷ records)) need then rest else bytes ∷ records

-- `evict` leaves the end of the sequence, ...
pub evict-suffix :
    (max need : ℕ) (records : List (List ℕ))
    → (gone : List (List ℕ)) × (gone ++ evict max need records ≡ records)
unfolding evict
evict-suffix max need [] = ([], refl)
evict-suffix max need (bytes ∷ records) =
    elim (Bool-cases (ltb (max - total (bytes ∷ records)) need)) [
      | inl e ↦
          let ih = evict-suffix max need records in (bytes ∷ ih.0, rw e (ap (λ t. bytes ∷ t) ih.1))
      | inr e ↦ ([], rw e refl)
    ]

-- ... which leaves the room that is needed ...
pub evict-fits :
    (max need : ℕ) (records : List (List ℕ))
    → need ≤ max
    → total records ≤ max
    → need + total (evict max need records) ≤ max
unfolding evict total
evict-fits max need [] h ht = omega arith
evict-fits max need (bytes ∷ records) h ht =
    elim (Bool-cases (ltb (max - (length (encode bytes) + total records)) need)) [
      | inl e ↦ rw e (evict-fits max need records h (omega (arith, ht)))
      | inr e ↦
          rw e (omega (arith, ltb_false→le (max - (length (encode bytes) + total records)) need e))
    ]

-- ... and is the longest that does.
pub evict-longest :
    (max need : ℕ) (records gone kept : List (List ℕ))
    → gone ++ kept ≡ records
    → need + total kept ≤ max
    → length kept ≤ length (evict max need records)
unfolding evict
evict-longest max need [] [] kept e h = rw e (omega arith)
evict-longest max need [] (b ∷ gone) kept e h = cc
evict-longest max need (bytes ∷ records) [] kept e h =
    elim (Bool-cases (ltb (max - total (bytes ∷ records)) need)) [
      | inl t ↦
          let k : need + total (bytes ∷ records) ≤ max = ap_le e h in
          let l = ltb→lt (max - total (bytes ∷ records)) need t in absurd (omega (arith, k, l))
      | inr t ↦ rw (t, e) (omega arith)
    ]
  where
    ap_le : kept ≡ bytes ∷ records → need + total kept ≤ max → need + total (bytes ∷ records) ≤ max
    ap_le e h = rw (sym e) h
evict-longest max need (bytes ∷ records) (b ∷ gone) kept e h =
    let t : gone ++ kept ≡ records = cc in
    let ih = evict-longest max need records gone kept t h in
    let n : length kept ≤ length records = omega (arith, length-append gone kept, ap length t) in
    elim (Bool-cases (ltb (max - total (bytes ∷ records)) need)) [
      | inl t ↦ rw t ih
      | inr t ↦ rw t (omega (arith, n))
    ]

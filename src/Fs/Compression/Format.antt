-- ===== src/Fs/Compression/Format.antt =====
-- What `decompress` makes of a block that `compress` wrote, and of a part of one.
use zeroxos_os.Base.{
  ◌-◌, inl, inr, Bool-cases, subst, ℕ, zero, suc, ◌+◌, ◌%◌, ◌≤◌, ◌<◌, ◌≡◌, refl, ap, ◌∙◌, none,
  some, List, [], ◌∷◌, ltb, length, take, drop, arith, u32_mod,
}
use zeroxos_os.Fs.Compression.{Algorithm, compress, stored_length, decompress}

length-take : (n : ℕ) (xs : List ℕ) → n ≤ length xs → length (take n xs) ≡ n
length-take zero xs h = refl
length-take (suc n) [] h = omega arith
length-take (suc n) (x ∷ xs) h = ap suc (length-take n xs (omega arith))

stored_length-compress :
    (src : List ℕ) (algo : Algorithm) → stored_length (compress src algo) ≡ length src % u32_mod
unfolding stored_length compress
stored_length-compress src algo = omega arith

length-compress : (src : List ℕ) (algo : Algorithm) → length (compress src algo) ≡ 5 + length src
unfolding compress
length-compress src algo = omega arith

drop-compress : (src : List ℕ) (algo : Algorithm) → drop 5 (compress src algo) ≡ src
unfolding compress
drop-compress src algo = refl

-- A block that was compressed comes back as its first `length % 2^32` bytes: as it was, below 4
-- GiB, for every algorithm.
pub decompress-compress :
    (src : List ℕ) (algo : Algorithm)
    → decompress (compress src algo) ≡ some (take (length src % u32_mod) src)
unfolding decompress
decompress-compress src algo =
    rw (stored_length-compress src algo, length-compress src algo, drop-compress src algo)
      (ground arith)

stored_length-take :
    (src : List ℕ) (algo : Algorithm) (m : ℕ)
    → stored_length (take (suc (suc (suc (suc (suc m))))) (compress src algo))
      ≡ stored_length (compress src algo)
unfolding stored_length compress
stored_length-take src algo m = refl

take_long :
    (src : List ℕ) (algo : Algorithm) (m : ℕ)
    → m < length src
    → length src < u32_mod
    → decompress (take (suc (suc (suc (suc (suc m))))) (compress src algo)) ≡ none
unfolding decompress
take_long src algo m h small =
    let long : length (take (suc (suc (suc (suc (suc m))))) (compress src algo)) ≡ 5 + m =
      length-take (suc (suc (suc (suc (suc m))))) (compress src algo)
        (omega (arith, length-compress src algo))
      ∙ omega arith in
    rw (stored_length-take src algo m, stored_length-compress src algo, long) (ground arith)

take_short : (bytes : List ℕ) (n : ℕ) → n < 5 → n ≤ length bytes → decompress (take n bytes) ≡ none
unfolding decompress
take_short bytes n h k = rw (length-take n bytes k) (ground arith)

-- No proper beginning of a compressed block of data below 4 GiB is accepted by `decompress`, be it
-- cut in the header or in the data.
pub decompress-take :
    (src : List ℕ) (algo : Algorithm) (n : ℕ)
    → length src < u32_mod
    → n < 5 + length src
    → decompress (take n (compress src algo)) ≡ none
decompress-take src algo n small h = elim (Bool-cases (ltb n 5)) [
  | inl y ↦
      take_short (compress src algo) n (ground arith) (omega (arith, length-compress src algo))
  | inr y ↦
      let e : suc (suc (suc (suc (suc (n - 5))))) ≡ n = ground arith in
      subst (λ k. decompress (take k (compress src algo)) ≡ none) e
        (take_long src algo (n - 5) (ground arith) small)
]

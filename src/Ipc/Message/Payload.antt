-- ===== src/Ipc/Message/Payload.antt =====
-- The payload of a fast message.
use zeroxos_os.Base.{
  ℕ, zero, suc, ◌-◌, ◌%◌, ◌≤◌, min, ◌≡◌, refl, ap, ◌∙◌, List, [], ◌∷◌, ◌++◌, length, take,
  replicate, arith, length-append,
}
use zeroxos_os.Ipc.Message.{fast_msg_max, new, as_bytes}

take-take_append : (n : ℕ) (xs ys : List ℕ) → n ≤ length xs → take n (take n xs ++ ys) ≡ take n xs
take-take_append zero xs ys h = refl
take-take_append (suc n) [] ys h = absurd (omega arith)
take-take_append (suc n) (x ∷ xs) ys h = ap (◌∷◌ x) (take-take_append n xs ys (omega arith))

take-min : (n : ℕ) (xs : List ℕ) → take (min (length xs) n) xs ≡ take n xs
take-min zero [] = refl
take-min zero (x ∷ xs) = let e : min (suc (length xs)) 0 ≡ 0 = omega arith in rw e
take-min (suc n) [] = let e : min 0 (suc n) ≡ 0 = omega arith in rw e
take-min (suc n) (x ∷ xs) =
    let e : min (suc (length xs)) (suc n) ≡ suc (min (length xs) n) = omega arith in
    rw e (ap (◌∷◌ x) (take-min n xs))

pub length-take : (n : ℕ) (xs : List ℕ) → length (take n xs) ≡ min (length xs) n
length-take zero xs = omega arith
length-take (suc n) [] = omega arith
length-take (suc n) (x ∷ xs) = omega (arith, length-take n xs)

length-replicate : (n a : ℕ) → length (replicate n a) ≡ n
length-replicate zero a = refl
length-replicate (suc n) a = ap suc (length-replicate n a)

-- What is read back from a message is the first 64 bytes of what was sent, the whole of a payload
-- that fits; the buffer has 64 bytes, and the length field is at most 64.
pub as_bytes-new :
    (src dst : ℕ) (payload : List ℕ)
    → (as_bytes (new src dst payload) ≡ take fast_msg_max payload)
      × (length (new src dst payload).payload ≡ fast_msg_max)
      × ((new src dst payload).len ≤ fast_msg_max)
unfolding as_bytes new
as_bytes-new src dst payload =
    let n = min (length payload) fast_msg_max in
    let e : n % 256 ≡ n = omega arith in
    (
      rw e (
          take-take_append n payload (replicate (fast_msg_max - n) 0) (omega arith)
          ∙ take-min fast_msg_max payload),
      omega (
        arith,
        length-append (take n payload) (replicate (fast_msg_max - n) 0),
        length-take n payload,
        length-replicate (fast_msg_max - n) 0,
      ),
      omega arith,
    )

-- ===== src/Commit/Output/Laws.antt =====
-- Laws of the copies that write a proof.
use supra_seal.Prelude.{
  ℕ, ◌+◌, ◌%◌, ◌<◌, ◌≡◌, refl, sym, ◌∙◌, ap, ap₂, List, [], ◌∷◌, ◌++◌, length, set, add64, size_mod,
  arith, length-append,
}
use supra_seal.Commit.Output.{Output, put, emit}

put-congr :
    (at to : ℕ) (bytes file : List ℕ)
    → at % size_mod ≡ to % size_mod
    → put at bytes file ≡ put to bytes file
unfolding put
put-congr at to [] file e = refl
put-congr at to (b ∷ bytes) file e =
    rw e (put-congr (at + 1) (to + 1) bytes (set file (to % size_mod) b) (omega arith))

put-append :
    (at : ℕ) (xs ys file : List ℕ)
    → put at (xs ++ ys) file ≡ put (at + length xs) ys (put at xs file)
unfolding put
put-append at [] ys file = ap (λ i. put i ys file) (omega arith)
put-append at (x ∷ xs) ys file =
    put-append (at + 1) xs ys (set file (at % size_mod) x)
    ∙ ap (λ i. put i ys (put (at + 1) xs (set file (at % size_mod) x))) (omega arith)

-- Two copies in a row leave the file and the index as one copy of the bytes of both.
pub emit-append : (xs ys : List ℕ) (o : Output) → emit ys (emit xs o) ≡ emit (xs ++ ys) o
unfolding emit
emit-append xs ys o =
    ap₂ (λ f i. record { file = f; buf_index = i })
      (put-congr (add64 o.buf_index (length xs)) (o.buf_index + length xs) ys
          (put o.buf_index xs o.file) (omega arith)
        ∙ sym (put-append o.buf_index xs ys o.file))
      (omega (arith, length-append xs ys))

-- A copy of no bytes, at an index that is a `size_t`.
pub emit-nil : (o : Output) → o.buf_index < size_mod → emit [] o ≡ o
unfolding emit put
emit-nil o h = ap (λ i. record { file = o.file; buf_index = i }) (omega arith)

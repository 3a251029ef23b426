-- ===== src/Commit/Driver/Pieces.antt =====
-- Files that are written in one piece, and the reading of such a file piece by piece.
use mathlib.Core.List.{append_assoc, append-nil}
use supra_seal.Prelude.{
  ℕ, zero, suc, ◌+◌, ◌%◌, ◌<◌, ◌≡◌, refl, sym, ◌∙◌, ap, ap₂, arith, some, true, List, [], ◌∷◌, ◌++◌,
  length, length-append, set, take, drop, replicate, size_mod, leb, if_on, le→leb, subst,
}
use supra_seal.Commit.Output.{Output, put, emit}
use supra_seal.Commit.TreeProof.Others.{set-append}
use supra_seal.Commit.Driver.{new_file, copy_bytes}

-- the pieces of `n` numbers, from the `j`-th on
unfoldable pub gather : (ℕ → List ℕ) → ℕ → ℕ → List ℕ
gather piece zero j = []
gather piece (suc n) j = piece j ++ gather piece n (suc j)

put-fill :
    (bytes pre : List ℕ)
    → length pre + length bytes < size_mod
    → put (length pre) bytes (pre ++ replicate (length bytes) 0) ≡ pre ++ bytes
unfolding put
put-fill [] pre h = refl
put-fill (b ∷ bytes) pre h =
    let at : length pre % size_mod ≡ length pre = omega arith in
    let next : length pre + 1 ≡ length (pre ++ (b ∷ [])) =
      omega (arith, length-append pre (b ∷ [])) in
    ap (λ i. put (length pre + 1) bytes (set (pre ++ replicate (suc (length bytes)) 0) i b)) at
    ∙ ap₂ (λ i f. put i bytes f) next (set-append pre (replicate (length bytes) 0) 0 b)
    ∙ put-fill bytes (pre ++ (b ∷ [])) (omega (arith, length-append pre (b ∷ [])))
    ∙ append_assoc pre (b ∷ []) bytes

-- A new file that is filled holds what was written.
pub filled :
    (bytes : List ℕ) (size : ℕ)
    → length bytes ≡ size
    → size < size_mod
    → (emit bytes (new_file size)).file ≡ bytes
unfolding emit new_file
filled bytes size e h =
    ap (λ n. put 0 bytes (replicate n 0)) (sym e) ∙ put-fill bytes [] (omega (arith, e))

-- `rest` is what a file holds from a place on.
pub At : List ℕ → ℕ → List ℕ → Type 0
At file at rest = (pre : List ℕ) × (file ≡ pre ++ rest) × (at ≡ length pre)

pub At-start : (file : List ℕ) → At file 0 file
unfolding At
At-start file = ([], refl, refl)

pub At-end : (file : List ℕ) (at : ℕ) → At file at [] → at ≡ length file
unfolding At
At-end file at (pre, e, h) = h ∙ ap length (sym (append-nil pre)) ∙ ap length (sym e)

pub At-skip :
    (file : List ℕ) (at n : ℕ) (xs rest : List ℕ)
    → length xs ≡ n
    → At file at (xs ++ rest)
    → At file (at + n) rest
unfolding At
At-skip file at n xs rest e (pre, f, h) =
    (pre ++ xs, f ∙ sym (append_assoc pre xs rest), omega (arith, e, h, length-append pre xs))

pub At-cast : (file : List ℕ) (at : ℕ) {xs ys : List ℕ} → xs ≡ ys → At file at xs → At file at ys
At-cast file at e h = subst (At file at) e h

drop-pre : (pre rest : List ℕ) → drop (length pre) (pre ++ rest) ≡ rest
drop-pre [] rest = refl
drop-pre (x ∷ pre) rest = drop-pre pre rest

pub take-pre : (xs rest : List ℕ) → take (length xs) (xs ++ rest) ≡ xs
take-pre [] rest = refl
take-pre (x ∷ xs) rest = ap (λ l. x ∷ l) (take-pre xs rest)

-- A copy of the next piece.
pub copy_lem :
    (file : List ℕ) (at n : ℕ) (xs rest : List ℕ) (o : Output)
    → length xs ≡ n
    → At file at (xs ++ rest)
    → copy_bytes file at n o ≡ some (emit xs o)
unfolding At copy_bytes
copy_lem file at n xs rest o e (pre, f, h) =
    let inside : leb (at + n) (length file) ≡ true =
      le→leb (at + n) (length file)
        (omega (arith, e, h, ap length f, length-append pre (xs ++ rest), length-append xs rest)) in
    let read : take n (drop at file) ≡ xs =
      ap₂ (λ i g. take n (drop i g)) h f
      ∙ ap (take n) (drop-pre pre (xs ++ rest))
      ∙ ap (λ m. take m (xs ++ rest)) (sym e)
      ∙ take-pre xs rest in
    if_on _ _ inside ∙ ap (λ bytes. some (emit bytes o)) read

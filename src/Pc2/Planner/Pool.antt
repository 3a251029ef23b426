-- ===== src/Pc2/Planner/Pool.antt =====
-- Which buffers of the pool are in use: those that were made and are not in the pool.
use mathlib.Core.Option.{some-injective}
use supra_seal.Prelude.{ℕ, ◌<◌, ◌≡◌, ◌≢◌, refl, ap, arith, some, List, [], ◌∷◌, map, sym, ◌∙◌}
use supra_seal.Pc2.Planner.{Buffer, Buffers, get, put, put_all}

-- not among some buffers
unfoldable pub Off : ℕ → List Buffer → Type 0
Off x [] = Unit
Off x (b ∷ bs) = (b ≢ some x) × Off x bs

-- made, and not in the pool
unfoldable pub Live : Buffers → ℕ → Type 0
unfolding Off
Live p x = (x < p.num_buffers) × Off x p.buffers

-- buffers that were made, no two of them the same
unfoldable pub Stacked : ℕ → List Buffer → Type 0
unfolding Off
Stacked n [] = Unit
Stacked n (b ∷ bs) = (x : ℕ) × (b ≡ some x) × (x < n) × Off x bs × Stacked n bs

-- live buffers, no two of them the same
unfoldable pub Held : Buffers → List ℕ → Type 0
unfolding Live Off
Held p [] = Unit
Held p (x ∷ xs) = Live p x × Off x (map some xs) × Held p xs

-- What `get` hands out is live, and was not before.
pub record Got (p : Buffers) : Type 0 where
  pub x : ℕ
  pub is_x : (get p).0 ≡ some x
  pub stacked : Stacked ((get p).1).num_buffers ((get p).1).buffers
  pub live : Live ((get p).1) x
  pub others : (y : ℕ) → Live p y → Live ((get p).1) y × (x ≢ y)

get_of : List Buffer → ℕ → Buffers
get_of bs n = record { buffers = bs; num_buffers = n }

get_of-Got : (bs : List Buffer) (n : ℕ) → Stacked n bs → Got (get_of bs n)
unfolding get get_of Stacked Live Off
get_of-Got [] n h = record {
  x = n;
  is_x = refl;
  stacked = tt;
  live = (omega arith, tt);
  others = λ y l. ((omega (arith, l), tt), λ e. omega (arith, e, l.0));
}
get_of-Got (b ∷ bs) n (x, e, lt, off, rest) = record {
  x = x;
  is_x = e;
  stacked = rest;
  live = (lt, off);
  others = λ y l. ((l.0, (l.1).1), λ f. (l.1).0 (e ∙ ap some f));
}

pub got : (p : Buffers) → Stacked p.num_buffers p.buffers → Got p
unfolding get_of
got p h = get_of-Got p.buffers p.num_buffers h

pub Held-mono :
    (p q : Buffers) (xs : List ℕ) → ((y : ℕ) → Live p y → Live q y) → Held p xs → Held q xs
unfolding Held
Held-mono p q [] f h = tt
Held-mono p q (x ∷ xs) f (l, off, h) = (f x l, off, Held-mono p q xs f h)

pub Held-Off :
    (p : Buffers) (x : ℕ) (xs : List ℕ)
    → ((y : ℕ) → Live p y → x ≢ y)
    → Held p xs
    → Off x (map some xs)
unfolding Held Off
Held-Off p x [] f h = tt
Held-Off p x (y ∷ xs) f (l, off, h) = (λ e. f y l (sym (some-injective y x e)), Held-Off p x xs f h)

put-Live : (p : Buffers) (x y : ℕ) → x ≢ y → Live p y → Live (put (some x) p) y
unfolding put Live Off
put-Live p x y ne l = (l.0, (λ e. ne (some-injective x y e), l.1))

put-Held :
    (p : Buffers) (x : ℕ) (xs : List ℕ) → Off x (map some xs) → Held p xs → Held (put (some x) p) xs
unfolding Held Off
put-Held p x [] off h = tt
put-Held p x (y ∷ xs) (ne, off) (l, o, h) =
    (put-Live p x y (λ e. ne (ap some (sym e))) l, o, put-Held p x xs off h)

-- Held buffers go back to the pool, and no other.
pub put_all-Stacked :
    (xs : List ℕ) (p : Buffers)
    → Stacked p.num_buffers p.buffers
    → Held p xs
    → let q = put_all (map some xs) p in Stacked q.num_buffers q.buffers
unfolding put_all put Held Stacked Live
put_all-Stacked [] p h k = h
put_all-Stacked (x ∷ xs) p h (l, off, k) =
    put_all-Stacked xs (put (some x) p) (x, refl, l.0, l.1, h) (put-Held p x xs off k)

pub put_all-Live :
    (xs : List ℕ) (p : Buffers) (y : ℕ)
    → Off y (map some xs)
    → Live p y
    → Live (put_all (map some xs) p) y
unfolding put_all Off
put_all-Live [] p y off l = l
put_all-Live (x ∷ xs) p y (ne, off) l =
    put_all-Live xs (put (some x) p) y off (put-Live p x y (λ e. ne (ap some e)) l)

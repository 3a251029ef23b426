-- ===== src/Pc1/NodeRw/Accepted.antt =====
-- A turn of the loop never gives a drive more than its queue holds.
use supra_seal.Prelude.{
  ℕ, zero, suc, ◌+◌, ◌*◌, ◌/◌, ◌≤◌, ◌<◌, ◌≡◌, refl, ◌∙◌, sym, ap, ap₂, min, arith, Option, some,
  List, [], ◌∷◌, length, get_or, set, drop, take, ◌++◌, none, false, add64, sub64, ltb, lt→ltb,
  dec_lt, ◌==◌, true, subst, inl, inr, if_on, if_off, bind_some, length-set,
}
use mathlib.Core.List.{append_assoc, append-nil}
use supra_seal.Nvme.Fifo.{size, dequeue}
use native.Mathlib.Nat.{suc-mul, mul-le-mul_right, div-mul-le_self}
use supra_seal.Nvme.Fifo.Refine.{IsValid, queue, counts-queue, dequeue-queue, dequeue-IsValid}
use supra_seal.Nvme.Qpair.{queue_size, incr_ops, process_completions}
use supra_seal.Pc1.NodeRw.{
  Kind, nop, read, write, Request, Command, Rw, Outcome, done, bad_poll, nvme_node_indexes,
  and_then, min_free_loop, min_free, send, command, issue_kind, issue_batch, issue_dequeued,
  issue_batches, num_batches, complete_loop, complete, turn,
}

-- Every controller has room for `m` more operations.
abbrev pub Room : ℕ → List ℕ → Type 0
Room m os = (i : ℕ) → get_or os i 0 + m ≤ queue_size

weaken : {m k : ℕ} (os : List ℕ) → k ≤ m → Room m os → Room k os
weaken os h r i = omega (arith, r i)

bump-Room :
    (m : ℕ) (os : List ℕ) (c : ℕ) → Room (suc m) os → Room m (set os c (incr_ops (get_or os c 0)))
unfolding incr_ops
bump-Room m [] c r i = omega (arith, r i)
bump-Room m (o ∷ os) zero r zero = omega (arith, r 0)
bump-Room m (o ∷ os) zero r (suc i) = omega (arith, r (suc i))
bump-Room m (o ∷ os) (suc c) r zero = omega (arith, r 0)
bump-Room m (o ∷ os) (suc c) r (suc i) = bump-Room m os c (λ j. r (suc j)) i

min_free_loop-Room :
    (os : List ℕ) (m : ℕ)
    → m ≤ queue_size
    → Room 0 os
    → (min_free_loop os m ≤ m) × Room (min_free_loop os m) os
unfolding min_free_loop
min_free_loop-Room [] m h r = (omega arith, λ i. omega arith)
min_free_loop-Room (o ∷ os) m h r =
    let (le, room) =
      min_free_loop-Room os (min m (sub64 queue_size o)) (omega arith) (λ i. r (suc i)) in
    (omega arith, room_cons le room)
  where
    room_cons :
        (min_free_loop os (min m (sub64 queue_size o)) ≤ min m (sub64 queue_size o))
        → Room (min_free_loop os (min m (sub64 queue_size o))) os
        → Room (min_free_loop os (min m (sub64 queue_size o))) (o ∷ os)
    room_cons le room zero = omega (arith, le, r 0)
    room_cons le room (suc i) = room i

-- The smallest number of free slots is room on every controller.
pub min_free-Room : (os : List ℕ) → 0 < length os → Room 0 os → Room (min_free os) os
unfolding min_free
min_free-Room [] h r i = absurd (omega arith)
min_free-Room (o ∷ os) h r zero = omega (
  arith,
  r 0,
  (min_free_loop-Room os (sub64 queue_size o) (omega (arith, r 0)) (λ i. r (suc i))).0,
)
min_free-Room (o ∷ os) h r (suc i) =
    (min_free_loop-Room os (sub64 queue_size o) (omega (arith, r 0)) (λ j. r (suc j))).1 i

-- Each entry is a batch of `n` requests, and not the null pointer.
pub data Batches (n : ℕ) : List (Option (List Request)) → Type 0 where
  end : Batches n []
  batch :
      {b : List Request} {bs : List (Option (List Request))}
      → length b ≡ n
      → Batches n bs
      → Batches n (some b ∷ bs)

first_batch :
    {n : ℕ} {x : Option (List Request)} {xs : List (Option (List Request))}
    → Batches n (x ∷ xs)
    → (b : List Request) × (x ≡ some b) × (length b ≡ n) × Batches n xs
first_batch (batch {b} e rest) = (b, refl, e, rest)

min_mul-le : (a b c : ℕ) → min (a / b) c * b ≤ a
min_mul-le a b c = omega (arith, mul-le-mul_right b least, div-mul-le_self a b)
  where
    least : min (a / b) c ≤ a / b
    least = omega arith

-- As SPDK does: a poll has no error, and completes no more operations than are outstanding.
pub record Polls (device : ℕ → ℕ → Option ℕ) (count : ℕ → ℕ → ℕ) : Type 0 where
  pub answer : (ctrl o : ℕ) → 0 < o → device ctrl o ≡ some (count ctrl o)
  pub bounded : (ctrl o : ℕ) → count ctrl o ≤ o

one_poll :
    (device : ℕ → ℕ → Option ℕ) (count : ℕ → ℕ → ℕ) (ctrl o : ℕ)
    → Polls device count
    → o ≤ queue_size
    → (now : ℕ) × (left : ℕ) × (process_completions (device ctrl) o ≡ some (now, left)) × (left ≤ o)
unfolding process_completions
one_poll device count ctrl o polls h = elim (dec_lt 0 o) [
  | no q ↦ (0, o, if_off _ _ (not_lt o q), omega arith)
  | yes q ↦ (
    count ctrl o,
    sub64 o (count ctrl o),
    if_on _ _ (lt→ltb 0 o q)
        ∙ ap (λ (a : Option ℕ). elim a [ none ↦ none | some c ↦ some (c, sub64 o c) ])
            (polls.answer ctrl o q),
    omega (arith, polls.bounded ctrl o),
  )
]
  where
    not_lt : (o : ℕ) → ¬ (0 < o) → ltb 0 o ≡ false
    not_lt o q = ground arith

complete_loop-Room :
    (device : ℕ → ℕ → Option ℕ) (count : ℕ → ℕ → ℕ) (ctrl : ℕ) (os : List ℕ)
    → Polls device count
    → Room 0 os
    → (n : ℕ) × (lefts : List ℕ) × (complete_loop device ctrl os ≡ some (n, lefts)) × Room 0 lefts
unfolding complete_loop
complete_loop-Room device count ctrl [] polls r = (0, [], refl, r)
complete_loop-Room device count ctrl (o ∷ os) polls r =
    let (now, left, e, le) = one_poll device count ctrl o polls (omega (arith, r 0)) in
    let (n, lefts, e', r') = complete_loop-Room device count (suc ctrl) os polls (λ j. r (suc j)) in
    (
      _,
      left ∷ lefts,
      bind_some (process_completions (device ctrl) o) (now, left) _ e
          ∙ bind_some (complete_loop device (suc ctrl) os) (n, lefts) _ e',
      room_of left lefts (omega (arith, le, r 0)) r',
    )
  where
    room_of : (left : ℕ) (lefts : List ℕ) → left ≤ queue_size → Room 0 lefts → Room 0 (left ∷ lefts)
    room_of left lefts h q zero = omega arith
    room_of left lefts h q (suc i) = q i

-- The requests of some batches, in order.
abbrev pub requests_of : List (Option (List Request)) → List Request
requests_of [] = []
requests_of (none ∷ bs) = requests_of bs
requests_of (some b ∷ bs) = b ++ requests_of bs

-- What the drives are to be asked: a command for each request but the empty ones.
abbrev pub asked : Kind → Command → List Command
asked read c = c ∷ []
asked write c = c ∷ []
asked nop c = []

abbrev pub commands_of : ℕ → ℕ → ℕ → List Request → List Command
commands_of npp offset ctrls [] = []
commands_of npp offset ctrls (req ∷ reqs) =
    let place = nvme_node_indexes npp ctrls req.node in
    asked req.kind (record { ctrl_id = place.0; offset = add64 (place.1) offset; request = req })
    ++ commands_of npp offset ctrls reqs

commands_of-append :
    (npp offset ctrls : ℕ) (xs ys : List Request)
    → commands_of npp offset ctrls (xs ++ ys)
      ≡ commands_of npp offset ctrls xs ++ commands_of npp offset ctrls ys
commands_of-append npp offset ctrls [] ys = refl
commands_of-append npp offset ctrls (req ∷ reqs) ys =
    let place = nvme_node_indexes npp ctrls req.node in
    let first : List Command =
      asked req.kind
        (record { ctrl_id = place.0; offset = add64 (place.1) offset; request = req }) in
    ap (λ cs. first ++ cs) (commands_of-append npp offset ctrls reqs ys)
    ∙ sym (append_assoc first (commands_of npp offset ctrls reqs) (commands_of npp offset ctrls ys))

module _ (npp batch_size offset : ℕ) (answer : Command → ℕ → ℕ)
    (ok : (c : Command) (n : ℕ) → n < queue_size → answer c n ≡ 0) where
  abbrev cmds : Rw → List Request → List Command
  cmds s reqs = commands_of npp offset (length s.outstanding) reqs

  -- A successful end, which leaves the FIFO, has given the commands of the requests to the drives,
  -- and leaves room for `m` operations on each controller.
  abbrev Becomes : ℕ → Rw → List Request → Outcome → Type 0
  Becomes m s reqs o =
      (s' : Rw) × (o ≡ done s')
      × (s'.parent_read_fifo ≡ s.parent_read_fifo)
      × Room m s'.outstanding
      × (s'.issued ≡ s.issued ++ cmds s reqs)
      × (length s'.outstanding ≡ length s.outstanding)

  send-Becomes :
      (m : ℕ) (c : Command) (s : Rw)
      → Room (suc m) s.outstanding
      → (s' : Rw) × (send npp offset answer c s ≡ done s')
        × (s'.parent_read_fifo ≡ s.parent_read_fifo)
        × Room m s'.outstanding
        × (s'.issued ≡ s.issued ++ c ∷ [])
        × (length s'.outstanding ≡ length s.outstanding)
  unfolding send
  send-Becomes m c s r =
      let ops = get_or s.outstanding c.ctrl_id 0 in
      let e : (answer c ops == 0) ≡ true =
        ap (λ t. t == 0) (ok c ops (omega (arith, r c.ctrl_id))) in
      (
        _,
        if_on _ _ e,
        refl,
        bump-Room m s.outstanding c.ctrl_id r,
        refl,
        length-set s.outstanding c.ctrl_id (incr_ops ops),
      )

  kind-Becomes :
      (m : ℕ) (k : Kind) (req : Request) (s : Rw)
      → Room (suc m) s.outstanding
      → (s' : Rw) × (issue_kind npp offset answer k req s ≡ done s')
        × (s'.parent_read_fifo ≡ s.parent_read_fifo)
        × Room m s'.outstanding
        × (s'.issued ≡ s.issued ++ asked k (command npp offset answer req s))
        × (length s'.outstanding ≡ length s.outstanding)
  unfolding issue_kind
  kind-Becomes m read req s r = send-Becomes m _ s r
  kind-Becomes m write req s r = send-Becomes m _ s r
  kind-Becomes m nop req s r = (
    s,
    refl,
    refl,
    weaken {m = suc m} {k = m} s.outstanding (omega arith) r,
    sym (append-nil s.issued),
    refl,
  )

  batch-Becomes :
      (m k : ℕ) (reqs : List Request) (s : Rw)
      → length reqs + m ≤ k
      → Room k s.outstanding
      → Becomes m s reqs (issue_batch npp offset answer reqs s)
  unfolding issue_batch and_then command
  batch-Becomes m k [] s h r =
      (s, refl, refl, weaken s.outstanding (omega arith) r, sym (append-nil s.issued), refl)
  batch-Becomes m k (req ∷ reqs) s h r =
      let (s', e, f, r', i, l) =
        kind-Becomes (length reqs + m) req.kind req s
          (weaken {m = k} {k = suc (length reqs + m)} s.outstanding (omega arith) r) in
      let (s'', e', f', r'', i', l') = batch-Becomes m (length reqs + m) reqs s' (omega arith) r' in
      let first : List Command = asked req.kind (command npp offset answer req s) in
      (
        s'',
        ap (λ o. and_then o (issue_batch npp offset answer reqs)) e ∙ e',
        f' ∙ f,
        r'',
        i'
            ∙ ap₂ (λ xs n. xs ++ commands_of npp offset n reqs) i l
            ∙ append_assoc s.issued first (cmds s reqs),
        l' ∙ l,
      )

  pub issued-Becomes :
      (n m : ℕ) (s : Rw)
      → IsValid s.parent_read_fifo
      → Batches batch_size (queue s.parent_read_fifo)
      → n ≤ length (queue s.parent_read_fifo)
      → Room (n * batch_size + m) s.outstanding
      → (s' : Rw) × (issue_batches npp offset answer n s ≡ done s')
        × IsValid s'.parent_read_fifo
        × (queue s'.parent_read_fifo ≡ drop n (queue s.parent_read_fifo))
        × Room m s'.outstanding
        × (s'.issued ≡ s.issued ++ cmds s (requests_of (take n (queue s.parent_read_fifo))))
  unfolding issue_batches issue_dequeued and_then
  issued-Becomes zero m s v b h r =
      (s, refl, v, refl, weaken s.outstanding (omega arith) r, sym (append-nil s.issued))
  issued-Becomes (suc n) m s v b h r = elim (dequeue-queue v) [
    | inl e ↦ absurd (omega (arith, ap length e.0))
    | inr e ↦
        let d = dequeue s.parent_read_fifo in
        let (reqs, some_e, len, rest) = first_batch (subst (Batches batch_size) e b) in
        let (s', e', f', r', i', l') =
          batch-Becomes (n * batch_size + m) (suc n * batch_size + m) reqs
            (record s { parent_read_fifo = d.1 }) (omega (arith, suc-mul n batch_size)) r in
        let same : queue s'.parent_read_fifo ≡ queue d.1 = ap queue f' in
        let (s'', e'', v'', q'', r'', i'') =
          issued-Becomes n m s' (subst IsValid (sym f') (dequeue-IsValid v))
            (subst (Batches batch_size) (sym same) rest)
            (omega (arith, ap length same, ap length e)) r' in
        let later : List Request = requests_of (take n (queue d.1)) in
        let taken : requests_of (take (suc n) (queue s.parent_read_fifo)) ≡ reqs ++ later =
          ap (λ q. requests_of (take (suc n) q)) e
          ∙ ap (λ x. requests_of (x ∷ take n (queue d.1))) some_e in
        (
          s'',
          ap
                (λ x.
                  and_then
                    (issue_dequeued npp offset answer x (record s { parent_read_fifo = d.1 }))
                    (issue_batches npp offset answer n))
                some_e
              ∙ ap (λ o. and_then o (issue_batches npp offset answer n)) e'
              ∙ e'',
          v'',
          q'' ∙ ap (drop n) same ∙ sym (ap (drop (suc n)) e),
          r'',
          i''
              ∙ ap (λ q. s'.issued ++ cmds s' (requests_of (take n q))) same
              ∙ ap₂ (λ xs k. xs ++ commands_of npp offset k later) i' l'
              ∙ append_assoc s.issued (cmds s reqs) (cmds s later)
              ∙ ap (λ xs. s.issued ++ xs)
                  (sym (commands_of-append npp offset (length s.outstanding) reqs later)
                    ∙ ap (cmds s) (sym taken)),
        )
  ]

  issue-Accepted :
      (s : Rw)
      → 0 < length s.outstanding
      → Room 0 s.outstanding
      → IsValid s.parent_read_fifo
      → Batches batch_size (queue s.parent_read_fifo)
      → let n = num_batches batch_size s in
        (s' : Rw) × (issue_batches npp offset answer n s ≡ done s')
        × IsValid s'.parent_read_fifo
        × (queue s'.parent_read_fifo ≡ drop n (queue s.parent_read_fifo))
        × Room 0 s'.outstanding
        × (s'.issued ≡ s.issued ++ cmds s (requests_of (take n (queue s.parent_read_fifo))))
  unfolding num_batches
  issue-Accepted s some_ctrl full v b =
      let free = min_free s.outstanding in
      let fits : min (free / batch_size) (size s.parent_read_fifo) * batch_size ≤ free =
        min_mul-le free batch_size (size s.parent_read_fifo) in
      issued-Becomes _ 0 s v b (omega (arith, (counts-queue v).0))
        (weaken s.outstanding (omega arith) (min_free-Room s.outstanding some_ctrl full))

  -- When SPDK accepts every command to a queue pair with fewer than 1,024 outstanding operations, and
  -- no poll has an error or completes more operations than are outstanding, a turn of the loop that
  -- starts with a controller, at most 1,024 outstanding operations on each one, and a valid FIFO of
  -- batches of the full size has no error and no failed assertion. It takes `num_batches` batches, the
  -- oldest, off the FIFO, which stays valid, gives the drives the command of each read and each
  -- write in them, in order, and leaves at most 1,024 outstanding operations on each controller.
  pub turn-Accepted :
      (device : ℕ → ℕ → Option ℕ) (count : ℕ → ℕ → ℕ) (s : Rw)
      → Polls device count
      → 0 < length s.outstanding
      → Room 0 s.outstanding
      → IsValid s.parent_read_fifo
      → Batches batch_size (queue s.parent_read_fifo)
      → let n = num_batches batch_size s in
        (s' : Rw) × (turn npp offset answer batch_size device s ≡ done s')
        × IsValid s'.parent_read_fifo
        × (queue s'.parent_read_fifo ≡ drop n (queue s.parent_read_fifo))
        × (s'.issued
            ≡ s.issued
              ++ commands_of npp offset
                  (length s.outstanding)
                  (requests_of (take n (queue s.parent_read_fifo))))
        × Room 0 s'.outstanding
  unfolding turn complete and_then
  turn-Accepted device count s polls some_ctrl full v b =
      let (s', e, v', q, r, i) = issue-Accepted s some_ctrl full v b in
      let (now, lefts, e', r') = complete_loop-Room device count 0 s'.outstanding polls r in
      (
        _,
        ap (λ o. and_then o (complete device)) e
            ∙ ap
                (λ (o : Option (ℕ × List ℕ)). elim o [
                  | none ↦ bad_poll
                  | some t ↦ done (record s' {
                    outstanding = t.1;
                    ios_completed = add64 s'.ios_completed (t.0);
                  })
                ])
                e',
        v',
        q,
        i,
        r',
      )

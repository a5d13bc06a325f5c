-- ===== src/Fs/Journal/Replay.antt =====
-- The replay of a journal against the transactions that wrote it.
use mathlib.Core.List.{append-nil, append_assoc}
use zeroxos_os.Base.{
  length-push, subst, sym, zero, suc, ◌++◌, inl, inr, Bool-cases, ℕ, ◌+◌, ◌≡◌, refl, ap, ◌∙◌, Bool,
  some, List, [], ◌∷◌, if◌then◌else◌, ==_self, length, push, arith,
}
use zeroxos_os.Fs.Journal.{
  JournalOp, begin_op, commit_op, create_inode, unlink_inode, write_block, free_block, xattr_set,
  snapshot_create, JournalEntry, Journal, entry, begin, append, commit, Scan, start, replay_entry,
  replay_loop, replay, replayed,
}

replay_loop-push :
    (s : Scan) (i : ℕ) (es : List JournalEntry) (e : JournalEntry)
    → replay_loop s i (push es e) ≡ replay_entry (replay_loop s i es) (i + length es) e
unfolding replay_loop
replay_loop-push s i [] e = ap (λ k. replay_entry s k e) (omega arith)
replay_loop-push s i (x ∷ es) e =
    replay_loop-push (replay_entry s i x) (i + 1) es e
    ∙ ap (λ k. replay_entry (replay_loop (replay_entry s i x) (i + 1) es) k e) (omega arith)

-- Where the loop stands after a journal.
abbrev scan : Journal → Scan
scan j = replay_loop start 0 j.entries

-- A change inside a transaction: neither the start nor the end of one.
abbrev pub IsChange : JournalOp → Type 0
IsChange begin_op = ⊥
IsChange commit_op = ⊥
IsChange _ = Unit

pub record Change : Type 0 where
  pub op : JournalOp
  pub is_change : IsChange op
  pub target : ℕ
  pub bytes : List ℕ

pub append_all : Journal → ℕ → List Change → Journal
append_all j txn [] = j
append_all j txn (c ∷ cs) = append_all (append j txn c.op c.target c.bytes) txn cs

-- A transaction: its changes, and whether it gets to its commit.
pub record Transaction : Type 0 where
  pub changes : List Change
  pub commits : Bool

pub transact : Journal → Transaction → Journal
transact j t =
    let (txn, j1) = begin j in
    let j2 = append_all j1 txn t.changes in if t.commits then commit j2 txn else j2

pub transact_all : Journal → List Transaction → Journal
transact_all j [] = j
transact_all j (t ∷ ts) = transact_all (transact j t) ts

abbrev pub committed : List Transaction → ℕ
committed [] = 0
committed (t ∷ ts) = (if t.commits then 1 else 0) + committed ts

-- The `k` indices from `n` on.
abbrev pub range : ℕ → ℕ → List ℕ
range n zero = []
range n (suc k) = n ∷ range (suc n) k

-- The begin of a transaction, its changes, and its commit.
abbrev pub entries_of : Transaction → ℕ
entries_of t = suc (length t.changes) + (if t.commits then 1 else 0)

-- Of transactions whose entries start at index `n`, the entries of those that are committed, each
-- up to its commit.
abbrev pub committed_entries : ℕ → List Transaction → List ℕ
committed_entries n [] = []
committed_entries n (t ∷ ts) =
    (if t.commits then range n (suc (length t.changes)) else [])
    ++ committed_entries (n + entries_of t) ts

range-push : (n k : ℕ) → push (range n k) (n + k) ≡ range n (suc k)
range-push n zero = (let e : n + 0 ≡ n = omega arith in rw e refl)
range-push n (suc k) =
    let e : n + suc k ≡ suc n + k = omega arith in rw e (ap (λ l. n ∷ l) (range-push (suc n) k))

-- The loop, at the end of journal `j`, is inside transaction `txn`, whose `k` entries start at
-- index `n`, with the count and the applied entries of `s`.
abbrev Open : Scan → ℕ → ℕ → ℕ → Journal → Type 0
Open s txn n k j =
    let z = scan j in
    (length j.entries ≡ n + k)
    × (z.count ≡ s.count)
    × (z.current_txn ≡ some txn)
    × (z.txn_entries ≡ range n k)
    × (z.applied ≡ s.applied)

begin-Open : (j : Journal) → Open (scan j) j.next_seq (length j.entries) 1 (begin j).1
unfolding begin replay_entry entry
begin-Open j =
    let i : 0 + length j.entries ≡ length j.entries = omega arith in
    rw (replay_loop-push start 0 j.entries (entry j.next_seq begin_op 0 []), i)
      (
        omega (arith, length-push j.entries (entry j.next_seq begin_op 0 [])),
        refl,
        refl,
        refl,
        refl,
      )

-- A change goes to the entries of the transaction that is open.
replay_entry-change :
    (s : Scan) (i seq txn target : ℕ) (op : JournalOp) (bytes : List ℕ)
    → IsChange op
    → s.current_txn ≡ some txn
    → replay_entry s i (entry seq op target bytes) ≡ record s { txn_entries = push s.txn_entries i }
unfolding replay_entry entry
replay_entry-change s i seq txn target begin_op bytes c q = elim c [ ]
replay_entry-change s i seq txn target commit_op bytes c q = elim c [ ]
replay_entry-change s i seq txn target create_inode bytes c q = rw (q, replay_entry) refl
replay_entry-change s i seq txn target unlink_inode bytes c q = rw (q, replay_entry) refl
replay_entry-change s i seq txn target write_block bytes c q = rw (q, replay_entry) refl
replay_entry-change s i seq txn target free_block bytes c q = rw (q, replay_entry) refl
replay_entry-change s i seq txn target xattr_set bytes c q = rw (q, replay_entry) refl
replay_entry-change s i seq txn target snapshot_create bytes c q = rw (q, replay_entry) refl

append-Open :
    (j : Journal) (s : Scan) (txn n k target : ℕ) (op : JournalOp) (bytes : List ℕ)
    → IsChange op
    → Open s txn n k j
    → Open s txn n (suc k) (append j txn op target bytes)
unfolding append
append-Open j s txn n k target op bytes c (l, p, q, r, a) =
    let e = entry txn op target bytes in
    rw
      (
        replay_loop-push start 0 j.entries e,
        replay_entry-change (scan j) (0 + length j.entries) txn txn target op bytes c q,
      )
      (
        omega (arith, l, length-push j.entries e),
        p,
        q,
        ap (λ t. push t (0 + length j.entries)) r
            ∙ ap (λ i. push (range n k) i) (omega (arith, l))
            ∙ range-push n k,
        a,
      )

append_all-Open :
    (cs : List Change) (j : Journal) (s : Scan) (txn n k : ℕ)
    → Open s txn n k j
    → Open s txn n (length cs + k) (append_all j txn cs)
unfolding append_all
append_all-Open [] j s txn n k o = (let e : 0 + k ≡ k = omega arith in rw e o)
append_all-Open (c ∷ cs) j s txn n k o =
    let e : suc (length cs) + k ≡ length cs + suc k = omega arith in
    rw e (
      append_all-Open cs (append j txn c.op c.target c.bytes) s txn n (suc k)
        (append-Open j s txn n k c.target c.op c.bytes c.is_change o))

-- A commit applies the entries of its transaction.
commit-Open :
    (j : Journal) (s : Scan) (txn n k : ℕ)
    → Open s txn n k j
    → let z = scan (commit j txn) in
      (length (commit j txn).entries ≡ n + suc k)
      × (z.count ≡ s.count + 1)
      × (z.applied ≡ s.applied ++ range n k)
unfolding commit replay_entry entry
commit-Open j s txn n k (l, p, q, r, a) =
    let e = entry txn commit_op 0 [] in
    rw (replay_loop-push start 0 j.entries e, q, ==_self txn)
      (
        omega (arith, l, length-push j.entries e),
        ap (λ (i : ℕ). i + 1) p,
        ap (λ t. t ++ (scan j).txn_entries) a ∙ ap (λ t. s.applied ++ t) r,
      )

replay-transact :
    (j : Journal) (t : Transaction)
    → let j' = transact j t in
      (length j'.entries ≡ length j.entries + entries_of t)
      × (replay j' ≡ replay j + (if t.commits then 1 else 0))
      × (replayed j'
          ≡ replayed j
            ++ (if t.commits then range (length j.entries) (suc (length t.changes)) else []))
unfolding transact replay replayed begin
replay-transact j t =
    let txn = j.next_seq in
    let j2 = append_all (begin j).1 txn t.changes in
    let n = length j.entries in
    let o : Open (scan j) txn n (length t.changes + 1) j2 =
      append_all-Open t.changes (begin j).1 (scan j) txn n 1 (begin-Open j) in
    let k : length t.changes + 1 ≡ suc (length t.changes) = omega arith in
    let o' : Open (scan j) txn n (suc (length t.changes)) j2 =
      subst (λ i. Open (scan j) txn n i j2) k o in
    elim (Bool-cases t.commits) [
      | inl y ↦
          rw y (let (l, c, a) = commit-Open j2 (scan j) txn n _ o' in (omega (arith, l), c, a))
      | inr y ↦ rw y (
          let (l, c, _, _, a) = o' in
          (omega (arith, l), omega (arith, c), a ∙ sym (append-nil (scan j).applied)))
    ]

-- Replaying a journal after further transactions, each begun, filled with changes, and then
-- committed or cut off, finds exactly the committed ones on top of those that it found before, and
-- its inner loop goes through exactly the entries of these, the begin and then the changes of
-- each, after those that it went through before: what a cut-off transaction leaves behind is not
-- taken for a part of the next.
pub replay-transact_all :
    (j : Journal) (ts : List Transaction)
    → (replay (transact_all j ts) ≡ replay j + committed ts)
      × (replayed (transact_all j ts) ≡ replayed j ++ committed_entries (length j.entries) ts)
unfolding transact_all
replay-transact_all j [] = (omega arith, sym (append-nil (replayed j)))
replay-transact_all j (t ∷ ts) =
    let (l, c, a) = replay-transact j t in
    let (c', a') = replay-transact_all (transact j t) ts in
    (
      omega (arith, c, c'),
      a'
          ∙ ap (λ i. replayed (transact j t) ++ committed_entries i ts) l
          ∙ ap (λ x. x ++ committed_entries (length j.entries + entries_of t) ts) a
          ∙ append_assoc (replayed j) _ _,
    )

-- ===== src/Fs/Journal.antt =====
-- crates/zerox-fs/src/journal.rs: the write-ahead log and its replay.
pub mod Replay
use zeroxos_os.Base.{
  ℕ, ◌+◌, Bool, true, false, Option, none, some, List, [], ◌∷◌, ◌++◌, if◌then◌else◌, ◌==◌, is_some,
  is_some_eq, length, push, add64,
}

pub data JournalOp : Type 0 where
  begin_op commit_op create_inode unlink_inode write_block free_block : JournalOp
  xattr_set snapshot_create : JournalOp

pub record JournalEntry : Type 0 where
  pub seq : ℕ
  pub op : JournalOp
  pub target : ℕ
  pub data_of : List ℕ

pub record Journal : Type 0 where
  pub entries : List JournalEntry
  pub next_seq : ℕ
  pub committed_seq : ℕ

pub new : Journal
new = record { entries = []; next_seq = 1; committed_seq = 0 }

pub entry : ℕ → JournalOp → ℕ → List ℕ → JournalEntry
entry seq op target bytes = record { seq = seq; op = op; target = target; data_of = bytes }

pub begin : Journal → ℕ × Journal
begin j =
    let seq = j.next_seq in
    (
      seq,
      record j {
        next_seq = add64 j.next_seq 1;
        entries = push j.entries (entry seq begin_op 0 []);
      },
    )

pub append : Journal → ℕ → JournalOp → ℕ → List ℕ → Journal
append j txn op target bytes = record j { entries = push j.entries (entry txn op target bytes) }

pub commit : Journal → ℕ → Journal
commit j txn = record j { entries = push j.entries (entry txn commit_op 0 []); committed_seq = txn }

-- The variables of `replay`'s loop, and `applied`, which is not in the source: the indices of the
-- entries that the inner loop has gone through.
pub record Scan : Type 0 where
  pub count : ℕ
  pub current_txn : Option ℕ
  pub txn_entries : List ℕ
  pub applied : List ℕ

abbrev pub start : Scan
start = record { count = 0; current_txn = none; txn_entries = []; applied = [] }

-- The body of the loop, at the entry with index `i`. The inner loop reads the entries of a
-- transaction and does nothing with them yet.
pub replay_entry : Scan → ℕ → JournalEntry → Scan
replay_entry s i e = elim e.op [
  | begin_op ↦ record s { current_txn = some e.seq; txn_entries = push [] i }
  | commit_op ↦
      if is_some_eq s.current_txn e.seq
      then record s {
        count = s.count + 1;
        current_txn = none;
        applied = s.applied ++ s.txn_entries;
      }
      else s
  | _ ↦ if is_some s.current_txn then record s { txn_entries = push s.txn_entries i } else s
]

pub replay_loop : Scan → ℕ → List JournalEntry → Scan
replay_loop s i [] = s
replay_loop s i (e ∷ es) = replay_loop (replay_entry s i e) (i + 1) es

pub replay : Journal → ℕ
replay j = let s = replay_loop (start) 0 j.entries in s.count

-- The indices of the entries that a replay goes through, transaction by transaction.
pub replayed : Journal → List ℕ
replayed j = (let s = replay_loop start 0 j.entries in s.applied)

pub entry_count : Journal → ℕ
entry_count j = length j.entries

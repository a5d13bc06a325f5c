-- ===== src/Fs/Tests.antt =====
-- The filesystem's operations on concrete data, and its theorems there.
use zeroxos_os.Base.{
  length, List, ◌++◌, ◌+◌, ◌≡◌, refl, true, false, none, some, [], ◌∷◌, take, arith,
}
use zeroxos_os.Fs.Checksum.{crc32}
use zeroxos_os.Fs.Compression.{lz4, zstd, compress, decompress}
use zeroxos_os.Fs.Compression.Format.{decompress-compress, decompress-take}
use zeroxos_os.Fs.Journal.{write_block, new as new_journal, replay, replayed}
use zeroxos_os.Fs.Journal.Replay.{committed_entries, Transaction, transact_all, replay-transact_all}

crc32-letter : crc32 (97 ∷ []) ≡ 0xE8B7BE43
unfolding crc32
crc32-letter = refl

decompress-compress_example : decompress (compress (7 ∷ 8 ∷ []) lz4) ≡ some (7 ∷ 8 ∷ [])
decompress-compress_example = decompress-compress (7 ∷ 8 ∷ []) lz4

decompress-take_example : decompress (take 6 (compress (7 ∷ 8 ∷ []) zstd)) ≡ none
decompress-take_example = decompress-take (7 ∷ 8 ∷ []) zstd 6 (omega arith) (omega arith)

abbrev one_write : Transaction
one_write = record {
  changes = record { op = write_block; is_change = tt; target = 5; bytes = 1 ∷ [] } ∷ [];
  commits = true;
}

abbrev cut_off : Transaction
cut_off = record one_write { commits = false }

abbrev history : List Transaction
history = one_write ∷ cut_off ∷ one_write ∷ []

replay-transact_all_example :
    (replay (transact_all new_journal history) ≡ replay new_journal + 2)
    × (replayed (transact_all new_journal history)
        ≡ replayed new_journal ++ committed_entries (length new_journal.entries) history)
replay-transact_all_example = replay-transact_all new_journal history

-- From an empty journal on these are the entries 0 and 1, and 5 and 6; the entries 3 and 4 were cut
-- off.
committed_entries-history : committed_entries 0 history ≡ 0 ∷ 1 ∷ 5 ∷ 6 ∷ []
committed_entries-history = refl

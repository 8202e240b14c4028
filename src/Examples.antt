-- ===== src/Examples.antt =====
-- Concrete inputs for the theorems.
pub mod Tables
pub mod Entries
pub mod Commands
pub mod Files
pub mod Workers
pub mod Clients
use in_mem_db.Base.{
  Bytes, pos, negsuc, codes, [], ◌∷◌, some, none, refl, ◌≡◌, arith, true, List, ◌≢◌, take, ◌*◌, ◌-◌,
  add64, ◌+◌, ◌≤◌, ◌⊎◌, ◌&&◌, ◌++◌, false, is_digit, inl, All, length, ◌∙◌, ◌<◌,
}
use in_mem_db.World.{World}
use in_mem_db.HashTable.{
  HashTable, hash_table_create, hash_table_set_with_expiry, hash_table_delete, hash_table_destroy,
  hash_table_get, hash_table_ttl, hash_table_resize,
}
use in_mem_db.HashTable.Valid.{
  IsValid, fresh, fresh-IsValid, lookup, Resized, hash_table_resize-Resized,
  hash_table_create-IsValid, entries, lookup-fresh,
}
use in_mem_db.HashTable.Set.{
  stored, SetResult, hash_table_set_with_expiry-SetResult, hash_table_set_with_expiry-succeeds,
}
use in_mem_db.HashTable.Delete.{DeleteResult, hash_table_delete-DeleteResult}
use in_mem_db.HashTable.Reads.{hash_table_get-visible, ttl_get_agree, visible}
use in_mem_db.HashTable.Destroy.{hash_table_destroy-live}
use in_mem_db.Command.{
  parse_command, command_execute, upper, parse_expiry_seconds, parse_from, Executed,
}
use in_mem_db.Command.Tests.{run, calm}
use in_mem_db.Entry.{Entry}
use in_mem_db.WorkerPool
use in_mem_db.Command.ReadOnly.{Untouched}
use in_mem_db.Persistence.Load.{
  persistence_load-replay, persistence_load-missing, persistence_load-expired_put,
}
use in_mem_db.Persistence.Log.{put, remove, Change, log_text, replay, current}
use in_mem_db.Persistence.Replay.{Loads}
use in_mem_db.Persistence.Append.{Appended, append_line-Appended}
use in_mem_db.Stdio
use in_mem_db.Stdio.Decimal.{scan_long-print}
use in_mem_db.Persistence.{set_line, del_line, append_line, persistence_load, persistence_rewrite}
use in_mem_db.Command.Contract.{persistence_rewrite-live}
use in_mem_db.Command.Served.{Served, Recorded, started, ran, Recorded-load}
use in_mem_db.Persistence.Fuel.{load_lines-fuel}
use in_mem_db.Persistence.{load_lines}
use in_mem_db.Command.Journal.{Journals}
use mathlib.Core.List.{flatten}
use in_mem_db.Persistence.Rewrite.{puts, persistence_rewrite-puts}
use in_mem_db.Persistence.Restart.{persistence_rewrite-load}
use in_mem_db.Persistence.Log.{IsWritable}
use in_mem_db.Command.Parse.{parse_command-fuel, parse_command-quoted_line}
use in_mem_db.Command.Contract.{command_execute-Journals}
use in_mem_db.Command.Effects.{
  command_execute-get, command_execute-set, command_execute-set_ex, printed,
}
use in_mem_db.Command.Set.{SetEffect, Writes}
use in_mem_db.Command.Removal.{DelEffect, command_execute-del}
use in_mem_db.Command.RoundTrip.{set_ex-get}
use in_mem_db.WorkerPool.ReadLock.{is_read_command-Untouched}
use in_mem_db.Stdio.{scan_long, print_long}
use in_mem_db.WorkerPool.{is_read_command}

-- A table with the entry a = "1" that expires at 1030, in a world with its blocks.
abbrev pub table : HashTable
table = (hash_table_set_with_expiry (fresh 2) (codes "a") (codes "1") (pos 1030) calm).0.1

abbrev pub world : World
world = (hash_table_set_with_expiry (fresh 2) (codes "a") (codes "1") (pos 1030) calm).1

abbrev pub made :
    SetResult
      (fresh 2)
      (codes "a")
      (codes "1")
      (pos 1030)
      calm
      (hash_table_set_with_expiry (fresh 2) (codes "a") (codes "1") (pos 1030) calm)
made =
    hash_table_set_with_expiry-SetResult (fresh 2) (codes "a") (codes "1") (pos 1030) calm
      (fresh-IsValid 2 (omega arith))

pub world-Writes : Writes world
unfolding run
world-Writes = (refl, refl, refl)

abbrev pub entry : Entry
entry = stored (codes "a") (codes "1") (pos 1030)

pub table-lookup : lookup table (codes "a") ≡ some entry
unfolding run lookup
table-lookup = refl

pub table-owns : 3 * entries table ≤ world.live
unfolding run mathlib.Core.List.flatten
table-owns = omega arith

pub fresh-owns : 3 * entries (fresh 2) ≤ 2
unfolding run mathlib.Core.List.flatten
fresh-owns = omega arith

pub parsed_get : parse_command (codes " get a") ≡ some (codes "get" ∷ codes "a" ∷ [])
unfolding run
parsed_get = refl

pub parsed_set :
    parse_command (codes "set a \"2 3\"") ≡ some (codes "set" ∷ codes "a" ∷ codes "2 3" ∷ [])
unfolding run
parsed_set = refl

pub parsed_ex :
    parse_command (codes "SET a b Ex 20")
    ≡ some (codes "SET" ∷ codes "a" ∷ codes "b" ∷ codes "Ex" ∷ codes "20" ∷ [])
unfolding run
parsed_ex = refl

pub parsed_del : parse_command (codes "del a") ≡ some (codes "del" ∷ codes "a" ∷ [])
unfolding run
parsed_del = refl

pub upper_set : upper (codes "set") ≡ codes "SET"
unfolding run
upper_set = refl

pub upper_set' : upper (codes "SET") ≡ codes "SET"
unfolding run
upper_set' = refl

pub upper_ex : upper (codes "Ex") ≡ codes "EX"
unfolding run
upper_ex = refl

pub upper_get : upper (codes "get") ≡ codes "GET"
unfolding run
upper_get = refl

pub upper_del : upper (codes "del") ≡ codes "DEL"
unfolding run
upper_del = refl

pub twenty : parse_expiry_seconds (codes "20") ≡ some (pos 20)
unfolding run
twenty = refl

pub goes_on : (command_execute table (codes "set a \"2 3\"") 1024 world).0.result ≢ pos 1
unfolding run
goes_on h = cc

pub reads_get : is_read_command (codes " get a") ≡ true
unfolding run WorkerPool.to_lower WorkerPool.starts_same WorkerPool.word_ends
    WorkerPool.is_read_command
reads_get = refl

-- A file of three changes, the second of which has expired at 1000.
abbrev pub changes : List Change
changes =
    put (codes "a") (codes "1") (pos 0)
    ∷ put (codes "a") (codes "2") (pos 900)
    ∷ remove (codes "b")
    ∷ []

abbrev pub restarted : World
restarted = record calm { aof = some (log_text changes) }

abbrev pub stale : World
stale = record calm {
  aof =
      some (set_line (codes "a") (codes "1") (pos 0) ++ set_line (codes "a") (codes "2") (pos 900));
}

abbrev pub restarted_later : World
restarted_later = record calm {
  clock = λ n. pos 1010;
  aof = (persistence_rewrite table calm).1.aof;
}

pub rewritten : (persistence_rewrite table calm).0 ≡ true
unfolding run
rewritten = refl

pub writable : All IsWritable (puts (pos 1000) (flatten table.buckets))
unfolding run mathlib.Core.List.flatten
writable = omega arith

pub short_40 : length (set_line (codes "a") (codes "1") (pos 0)) < 40
unfolding run
short_40 = omega arith

pub short_50 : length (set_line (codes "a") (codes "1") (pos 0)) < 50
unfolding run
short_50 = omega arith

abbrev pub first_reply : Executed × World
first_reply = command_execute (fresh 8) (codes "set a \"2 3\"") 1024 calm

pub first_good : first_reply.0.result ≡ pos 0
unfolding run
first_good = refl

abbrev pub after_first : Served first_reply.0.table first_reply.1
after_first = ran (codes "set a \"2 3\"") 1024 (started 8 calm (omega arith) refl) first_good

-- The table of one entry, with its line in the file.
abbrev pub one_line : World
one_line = record world { aof = some (log_text (put (codes "a") (codes "1") (pos 1030) ∷ [])) }

pub table-reads :
    (q : Bytes)
    → lookup table q ≡ replay (put (codes "a") (codes "1") (pos 1030) ∷ []) (λ _. none) q
table-reads q =
    let done =
      hash_table_set_with_expiry-succeeds (fresh 2) (codes "a") (codes "1") (pos 1030) calm refl
        refl refl in
    made.reads q ∙ rw (done, lookup-fresh 2 q)

abbrev pub recorded : Recorded table one_line
recorded = record {
  valid = made.valid;
  owns = table-owns;
  changes = put (codes "a") (codes "1") (pos 1030) ∷ [];
  text = refl;
  reads = table-reads;
}

pub parsed_ttl : parse_command (codes "ttl a") ≡ some (codes "ttl" ∷ codes "a" ∷ [])
unfolding run
parsed_ttl = refl

pub upper_ttl : upper (codes "ttl") ≡ codes "TTL"
unfolding run
upper_ttl = refl

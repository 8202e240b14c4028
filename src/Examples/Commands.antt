-- ===== src/Examples/Commands.antt =====
-- The theorems on src/command.c and src/worker_pool.c at concrete inputs.
use in_mem_db.Base.{pos, codes, [], ◌∷◌, some, refl, ◌≡◌, arith, take, ◌-◌, add64}
use in_mem_db.HashTable.Valid.{lookup}
use in_mem_db.HashTable.Reads.{visible}
use in_mem_db.Command.{parse_command, command_execute, parse_from}
use in_mem_db.Command.Tests.{calm}
use in_mem_db.Command.ReadOnly.{Untouched}
use in_mem_db.Command.Journal.{Journals}
use in_mem_db.Command.Parse.{parse_command-fuel, parse_command-quoted_line}
use in_mem_db.Command.Contract.{command_execute-Journals}
use in_mem_db.Command.Effects.{
  command_execute-get, command_execute-set, command_execute-set_ex, printed,
}
use in_mem_db.Command.Set.{SetEffect}
use in_mem_db.Command.Removal.{DelEffect, command_execute-del}
use in_mem_db.Command.RoundTrip.{set_ex-get}
use in_mem_db.WorkerPool.ReadLock.{is_read_command-Untouched}
use in_mem_db.Command.Remaining.{remaining, command_execute-ttl}
use in_mem_db.Examples.{
  parsed_ttl, upper_ttl, table, world, made, world-Writes, table-owns, parsed_get, parsed_set,
  parsed_ex, parsed_del, upper_set, upper_set', upper_ex, upper_get, upper_del, twenty, goes_on,
  reads_get, entry, table-lookup,
}

command_execute-Journals_example :
    Journals table world (command_execute table (codes "set a \"2 3\"") 1024 world)
command_execute-Journals_example =
    command_execute-Journals table (codes "set a \"2 3\"") 1024 world made.valid table-owns goes_on

is_read_command-Untouched_example :
    Untouched table world (command_execute table (codes " get a") 1024 world)
is_read_command-Untouched_example =
    is_read_command-Untouched 1024 table world (codes " get a") reads_get

set_ex-get_example :
    (command_execute
      (command_execute table (codes "SET a b Ex 20") 1024 calm).0.table
      (codes " get a")
      1024
      calm).0.response
    ≡ codes "b\n"
set_ex-get_example =
    set_ex-get table (codes "SET a b Ex 20") (codes "SET") (codes "a") (codes "b") (codes "Ex")
      (codes "20") (codes " get a") (codes "get") 1000 20 1000 1024 calm calm parsed_ex upper_set'
      upper_ex twenty parsed_get upper_get refl (omega arith) (omega arith) refl made.valid
      (λ n. refl) (refl, refl, refl)

command_execute-get_example :
    ((command_execute table (codes " get a") 1024 calm).0.result ≡ pos 0)
    × ((command_execute table (codes " get a") 1024 calm).0.response
        ≡ take (1024 - 1) (printed (visible (pos 1000) (lookup table (codes "a")))))
command_execute-get_example =
    command_execute-get table (codes " get a") (codes "get") (codes "a") 1024 calm parsed_get
      upper_get

command_execute-set_example :
    SetEffect 1024 table
      (codes "a")
      (codes "2 3")
      (pos 0)
      calm
      (command_execute table (codes "set a \"2 3\"") 1024 calm)
command_execute-set_example =
    command_execute-set table (codes "set a \"2 3\"") (codes "set") (codes "a") (codes "2 3") 1024
      calm parsed_set upper_set made.valid (λ n. refl) (refl, refl, refl)

command_execute-set_ex_example :
    SetEffect 1024 table
      (codes "a")
      (codes "b")
      (add64 (pos 1000) (pos 20))
      calm
      (command_execute table (codes "SET a b Ex 20") 1024 calm)
command_execute-set_ex_example =
    command_execute-set_ex table (codes "SET a b Ex 20") (codes "SET") (codes "a") (codes "b")
      (codes "Ex") (codes "20") (pos 20) 1024 calm parsed_ex upper_set' upper_ex twenty made.valid
      (λ n. refl) (refl, refl, refl)

command_execute-del_example :
    DelEffect 1024 table
      (codes "a")
      (world.clock 0)
      world
      (command_execute table (codes "del a") 1024 world)
command_execute-del_example =
    command_execute-del table (codes "del a") (codes "del") (codes "a") 1024 world parsed_del
      upper_del made.valid table-owns (world-Writes)

parse_command-fuel_example :
    parse_from 20 0 (codes " get a") ≡ some (parse_command (codes " get a"))
parse_command-fuel_example = parse_command-fuel 20 (codes " get a") (omega arith)

parse_command-quoted_line_example :
    parse_command (codes " \"SET\" \"a b\" \"\"") ≡ some (codes "SET" ∷ codes "a b" ∷ [] ∷ [])
parse_command-quoted_line_example =
    parse_command-quoted_line (codes "SET" ∷ codes "a b" ∷ [] ∷ []) (omega arith) (omega arith)

command_execute-ttl_example :
    (command_execute table (codes "ttl a") 1024 calm).0.response
    ≡ take (1024 - 1) (remaining 1030 1000)
command_execute-ttl_example =
    command_execute-ttl table (codes "ttl a") (codes "ttl") (codes "a") 1024 calm 1030 1000 1000
      entry parsed_ttl upper_ttl table-lookup refl (omega arith) (omega arith) refl refl
      (omega arith)

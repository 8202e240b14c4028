-- ===== src/Command/Tests.antt =====
-- Runs of the commands on concrete inputs.
use in_mem_db.Base.{
  Bytes, codes, [], ◌∷◌, some, none, true, pos, ◌≡◌, refl, replicate, str_eq, is_space, is_digit,
  to_upper, c_string, add64, sub64, false,
}
use in_mem_db.World.{World, malloc, free, time, io_call, fprintf, store}
use in_mem_db.Entry.{entry_is_expired, entry_destroy, entry_set_expiry_at}
use in_mem_db.HashTable
use in_mem_db.HashTable.{HashTable}
use in_mem_db.HashTable.Valid.{fresh}
use in_mem_db.Stdio
use in_mem_db.Persistence
use in_mem_db.Command.{Executed, parse_command, command_execute, dispatch}
use in_mem_db.Command

-- All that a run computes with.
unfoldable pub run : Unit {0}
unfolding replicate str_eq is_space is_digit to_upper c_string add64 sub64 malloc store free time
    io_call fprintf entry_is_expired entry_destroy entry_set_expiry_at HashTable.over_loaded
    HashTable.hash_key HashTable.index_of HashTable.find_in_chain HashTable.modify_in_chain
    HashTable.unlink HashTable.chain_of HashTable.set_chain HashTable.move_chain
    HashTable.move_buckets HashTable.hash_table_resize HashTable.replace_value HashTable.grow
    HashTable.insert_entry HashTable.hash_table_set_with_expiry HashTable.hash_table_set
    HashTable.hash_table_delete Stdio.print_size Stdio.digits Stdio.print_long Stdio.skip_space
    Stdio.scan_digits Stdio.starts_with_digit Stdio.scan_sign Stdio.scan_integer Stdio.scan_size
    Stdio.scan_long Stdio.scan_word Stdio.expect Stdio.fread Persistence.counted_text
    Persistence.expiry_text Persistence.set_line Persistence.del_line Persistence.append_line
    Persistence.persistence_append_set Persistence.persistence_append_del
    Persistence.persistence_append_set_expiry Persistence.rewrite_chain Persistence.rewrite_buckets
    Persistence.fopen_tmp Persistence.fclose_tmp Persistence.rename_tmp
    Persistence.persistence_rewrite Persistence.read_string Persistence.read_expiry
    Persistence.restore Persistence.load_set Persistence.load_del Persistence.load_line
    Persistence.load_lines Persistence.persistence_load parse_command command_execute dispatch
    Command.upper Command.find_entry Command.write_expiry Command.parse_expiry_seconds
    Command.set_memory Command.set_plain Command.set_expiring Command.execute_set
    Command.execute_get Command.execute_ttl Command.delete_live Command.execute_del
    Command.execute_ping Command.execute_exit
run = tt

-- A world at the time 1000 in which every call succeeds.
abbrev pub calm : World
calm = record {
  heap = λ n. true;
  live = 2;
  clock = λ n. pos 1000;
  io = λ n. true;
  torn = λ n. 0;
  overrun = false;
  aof = none;
  tmp = none;
}

abbrev pub step : Bytes → HashTable → World → Executed × World
step line table w = command_execute table line 1024 w

abbrev pub after_set : Executed × World
after_set = step (codes "set  greeting \"Hello World\" ex 30") (fresh 8) calm

quotes :
    parse_command (codes " SET message \"Hello World\"\"\" x")
    ≡ some (codes "SET" ∷ codes "message" ∷ codes "Hello World" ∷ [] ∷ codes "x" ∷ [])
unfolding run
quotes = refl

too_many : parse_command (codes "1 2 3 4 5 6") ≡ none
unfolding run
too_many = refl

set_file : after_set.1.aof ≡ some (codes "SET 8:greeting11:Hello World EXAT 1030\n")
unfolding run
set_file = refl

get_after_set :
    (step (codes "GET greeting") after_set.0.table after_set.1).0.response ≡ codes "Hello World\n"
unfolding run
get_after_set = refl

ttl_after_set :
    (step (codes "ttl greeting") after_set.0.table after_set.1).0.response ≡ codes "30\n"
unfolding run
ttl_after_set = refl

blocks_after_set : after_set.1.live ≡ 5
unfolding run
blocks_after_set = refl

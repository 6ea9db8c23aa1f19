-- ===== src/Sharded/Restart/Tests.antt =====
-- A shard that took an order and is rebuilt from its files.
use matching_engine_cpp.Base.{
  ◌+ℤ◌, ◌≡◌, refl, sym, ap, subst, true, none, some, [], ◌∷◌, arith, pos, Text, codes, text_eq,
  threw, Result, ok, err, int_eq, text_eq_instance,
}
use matching_engine_cpp.Json.{Json, Double, find, find_field, set, add_field}
use matching_engine_cpp.Json.RoundTrip.{IsPlain}
use matching_engine_cpp.Recovery.{Disk, WalStore, async}
use matching_engine_cpp.Recovery
use matching_engine_cpp.Recovery.Replayed.{Holds, append-Holds, log_text}
use matching_engine_cpp.Types.{
  buy, gtc, none_stp, AddOrder, side_to_string, tif_to_string, stp_to_string,
}
use matching_engine_cpp.Engine.{initial, Engine}
use matching_engine_cpp.Risk.{default_limits}
use matching_engine_cpp.Sharded.{Shard, Sharded, log_record, serialize_add}
use matching_engine_cpp.Sharded.Replay.Laws.{Replays}
use matching_engine_cpp.Engine.Commands.{Output, add}
use matching_engine_cpp.Sharded.Replay.{replay}
use matching_engine_cpp.Sharded.Restart.{snapshot, snapshot_shard, Files, replay_shard}
use matching_engine_cpp.Sharded.Restart.Laws.{HoldsLog, replay_shard-engine}
use matching_engine_cpp.Engine.Snapshot.{
  snapshot, books_json, book_json, serialize_side, levels_json, level_json, orders_json, order_json,
}
use matching_engine_cpp.Engine.Snapshot.Again.{seen_at}
use matching_engine_cpp.Engine.Snapshot.Books.{Distinct}
use matching_engine_cpp.Engine.Invariant.{IsValid, initial-IsValid}
use matching_engine_cpp.Engine.Invariant.Adding.{add-IsValid}
use matching_engine_cpp.Sharded.Restart.{snapshot_shard, rebuild}
use matching_engine_cpp.Sharded.Restart.Snapshots.{rebuild-snapshot_shard}
use matching_engine_cpp.Recovery.Replayed.{append_all}

abbrev no_stod : Text → Result Double
no_stod token = err (threw token)

abbrev an_order : AddOrder
an_order = record {
  symbol = codes "AAPL";
  order_id = pos 1;
  participant_id = codes "A";
  side = buy;
  price_ticks = pos 100;
  quantity = pos 5;
  time_in_force = gtc;
  stp = none_stp;
}

-- The engine after the order.
abbrev engine_after : Result Output → Engine
engine_after (ok out) = out.0
engine_after (err why) = initial

abbrev the_record : Json
the_record = log_record (codes "add") (serialize_add an_order)

abbrev the_shard : Shard
the_shard = record {
  engine = engine_after (add initial an_order);
  wal = the_record ∷ [];
  last_ingress_sequence = pos 0;
}

the_shard-Replays : Replays the_shard
unfolding replay add initial log_record serialize_add set add_field find find_field text_eq codes
    matching_engine_cpp.Base.find
the_shard-Replays = refl

abbrev one_shard : Sharded
one_shard = record { shard_count = 1; shards = λ i. the_shard; risk = default_limits }

abbrev empty_disk : Disk
empty_disk = record { wal = some []; snapshot = none; snapshot_tmp = none }

abbrev new_store : WalStore
new_store = record {
  wal_path = codes "data/shard_0.wal.jsonl";
  snapshot_path = codes "data/shard_0.snapshot.json";
  ack_policy = async;
  is_open = true;
  pending = [];
  batch_count = 0;
}

new_store-Holds : Holds [] new_store empty_disk
unfolding log_text
new_store-Holds = record { open_file = refl; text = refl }

abbrev files : Files
files i = Recovery.append the_record new_store empty_disk

the_record-IsPlain : IsPlain the_record
unfolding IsPlain log_record serialize_add set add_field side_to_string tif_to_string stp_to_string
the_record-IsPlain = (tt, ((tt, (refl, (tt, (tt, (refl, (refl, (tt, (tt, tt)))))))), tt))

the_shard-HoldsLog : HoldsLog the_shard (files 0).0 (files 0).1
unfolding Recovery.append
the_shard-HoldsLog = record {
  log = append-Holds [] the_record new_store empty_disk new_store-Holds;
  plain = (the_record-IsPlain, tt);
  no_snapshot = refl;
}

replay_shard-engine_example : replay_shard no_stod one_shard files (pos 0) ≡ ok the_shard.engine
replay_shard-engine_example =
    replay_shard-engine no_stod one_shard files 0 (omega arith) the_shard-Replays the_shard-HoldsLog

the_shard-IsValid : IsValid the_shard.engine
the_shard-IsValid =
    let (out, ran, v) = add-IsValid initial an_order initial-IsValid in
    subst IsValid (sym (ap engine_after ran)) v

the_shard-Distinct : Distinct the_shard.engine.books
unfolding add initial text_eq matching_engine_cpp.Base.find
the_shard-Distinct = (tt, tt)

the_snapshot-IsPlain : IsPlain (snapshot the_shard.engine)
unfolding IsPlain snapshot books_json book_json serialize_side levels_json level_json orders_json
    order_json ◌+ℤ◌ add initial matching_engine_cpp.Base.find text_eq codes set add_field
the_snapshot-IsPlain =
    (refl, (((((refl, (((refl, (tt, (refl, tt))), tt), tt)), tt), (tt, tt)), tt), tt))

rebuild-snapshot_shard_example :
    (file : WalStore × Disk) × (e : Engine) × (snapshot_shard the_shard (new_store, empty_disk)
      ≡ ok file)
    × (e.sequence ≡ the_shard.engine.sequence)
    × (seen_at e.books (codes "AAPL") buy (pos 100)
        ≡ seen_at the_shard.engine.books (codes "AAPL") buy (pos 100))
    × (rebuild no_stod (append_all (the_record ∷ []) file.0 file.1) ≡ replay e (the_record ∷ []))
rebuild-snapshot_shard_example =
    rebuild-snapshot_shard no_stod the_shard new_store empty_disk (the_record ∷ []) (codes "AAPL")
      buy (pos 100) refl the_shard-IsValid the_shard-Distinct the_snapshot-IsPlain
      (the_record-IsPlain, tt)

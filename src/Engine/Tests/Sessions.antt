-- ===== src/Engine/Tests/Sessions.antt =====
-- An engine with an order at rest: what it answers, and its snapshot read back.
use matching_engine_cpp.Base.{◌≡◌, List, [], ◌∷◌, pos, int_laws, ok}
use matching_engine_cpp.Engine.{Engine, initial}
use matching_engine_cpp.Engine.Snapshot.{load_snapshot, snapshot}
use matching_engine_cpp.Engine.Snapshot.Again.{seen_at}
use matching_engine_cpp.Engine.Snapshot.Restored.{load_snapshot-snapshot}
use matching_engine_cpp.Engine.Reached.{handle_all, InOrder, handle_all-InOrder}
use matching_engine_cpp.Engine.Counted.Outputs.{Answers}
use matching_engine_cpp.Engine.Counted.Answered.{respond, respond-Answers}
use matching_engine_cpp.Engine.Commands.{Output}
use matching_engine_cpp.Engine.Tests.{one_sell, sell_order, buy_order, new_price}
use matching_engine_cpp.Gateway.{Command, add_order, replace_order}
use matching_engine_cpp.Types.{sell}

abbrev three_commands : List Command
three_commands = add_order sell_order ∷ add_order buy_order ∷ replace_order new_price ∷ []

handle_all-InOrder_example : (e : Engine) × (handle_all initial three_commands ≡ ok e) × InOrder e
handle_all-InOrder_example = handle_all-InOrder three_commands

respond-Answers_example :
    (out : Output) × (respond one_sell.0.0 (add_order buy_order) ≡ ok out)
    × Answers one_sell.0.0.sequence (pos 7) out
respond-Answers_example =
    respond-Answers one_sell.0.0 (add_order buy_order) one_sell.2 (omega int_laws)

-- The engine after the first of them.
abbrev reached : (e : Engine) × (handle_all initial (add_order sell_order ∷ []) ≡ ok e) × InOrder e
reached = handle_all-InOrder (add_order sell_order ∷ [])

load_snapshot-snapshot_example :
    (e' : Engine) × (load_snapshot initial (snapshot reached.0) ≡ ok e')
    × (e'.sequence ≡ reached.0.sequence)
    × (seen_at e'.books (78 ∷ []) sell (pos 100) ≡ seen_at reached.0.books (78 ∷ []) sell (pos 100))
load_snapshot-snapshot_example =
    load_snapshot-snapshot reached.0 initial (78 ∷ []) sell (pos 100) reached.2.0 reached.2.1

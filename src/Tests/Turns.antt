-- ===== src/Tests/Turns.antt =====
-- A run of the system command by command: an order is signed and announced, and a run of
-- handleNewOrder takes it off its stack.
use mathlib.Core.WellFounded.{Acc}
use d8x_broker_server.Base.{
  ◌≡◌, ◌≢◌, refl, List, [], ◌∷◌, ◌++◌, some, true, pos, ◌+◌, ℕ, zero, suc, All, lookup, insert,
  get_elem?, map,
}
use d8x_broker_server.Text.{Text, codes, text_beq, to_lower, trim_space, cut_before, cut_after}
use d8x_broker_server.Decimal.{itoa, atoi}
use d8x_broker_server.Hex.{encode, decode}
use d8x_broker_server.Eth.Plain.{print, read}
use d8x_broker_server.Redis.Documented.{View, put_all}
use d8x_broker_server.Redis.Memory.{memory, start}
use d8x_broker_server.Redis.Connected.{memory-Connected}
use d8x_broker_server.Redis.Prog.{Prog, done, call}
use d8x_broker_server.Orders.{channel_new_order, check_data, order_fields, stack_name}
use d8x_broker_server.Orders.Submit.{items}
use d8x_broker_server.Pen.{signed_order, create_order_digest, big_int, has_key}
use d8x_broker_server.Fee.{reduce_by_level, vip3_key}
use d8x_broker_server.Api.Handlers.{with_broker_addr, broker_address, signed_response}
use d8x_broker_server.Api.Routes.{Answer, route}
use d8x_broker_server.Ws.Hub.{new_hub, handle_ws, read_message}
use d8x_broker_server.Ws.Notify.{notify, broadcast}
use d8x_broker_server.System.Tasks.{
  announce_task, found_task, submission_task, store_task, fetch_task, level_task, fee_task,
  response_task, charged_task, checked_task, sign_task, submitted_task, handle_task, serve_task,
}
use d8x_broker_server.Ws.Topic.{is_valid_order_topic}
use d8x_broker_server.Ws.Subs.{new_server, handle_request, subscribe_orders}
use d8x_broker_server.System.Turns.{
  Pool, Run, popping, reading, over, run_turn, Came, event, turn, Turn, rest, drain, receive,
  request, ws,
}
use d8x_broker_server.System.Turns.Always.{IsKept, Came-IsKept, IsSent, run_turn-IsSent, topic_of}
use d8x_broker_server.System.Turns.Count.{count}
use d8x_broker_server.System.Turns.Count.Conserved.{all_pushed}
use d8x_broker_server.System.Turns.Count.Held.{all_held}
use d8x_broker_server.System.Turns.Count.Told.{all_told, all_missed, AllTell, Came-told}
use d8x_broker_server.System.Turns.Quiet.{Quiets, IsQuiet, Came-Quiets}
use d8x_broker_server.System.Turns.Work.{Before, Turn-Acc}
use d8x_broker_server.Tests.Data.{toy, connect, app, config}
use d8x_broker_server.Tests.System.{
  decoders, two_bytes, decodes_fits, topic, one_open, one_subscribed, one_open-HubStep,
  one_subscribed-HubStep,
}
use d8x_broker_server.Tests.System.{request as posted}

abbrev Comes : Pool View → Type 0
Comes = Came (memory true) toy (λ t. some (pos 1)) decoders config app

-- A state that the system reaches.
abbrev Past : Type 0
Past = (s : Pool View) × Comes s

-- The next command of the newest request.
abbrev next_of : (s : Pool View) → Comes s → (ts : List (Prog Answer)) → s.tasks ≡ ts → Past
next_of s came [] at = (s, came)
next_of s came (done a ∷ ts) at = (s, came)
next_of s came (call c go_on ∷ ts) at = (_, turn came (rest [] ts c go_on at))

abbrev advance : ℕ → Past → Past
advance zero p = p
advance (suc n) p = advance n (next_of p.0 p.1 p.0.tasks refl)

abbrev requested : Text → Past → Past
requested path p = (_, event p.1 (request connect 0 0 (posted path)))

abbrev subscribed : Past
subscribed = (
  _,
  event (event (Came.start start (λ k. refl)) (ws one_open one_open-HubStep))
      (ws one_subscribed one_subscribed-HubStep),
)

abbrev signed : Past
signed = advance 5 (requested (codes "/sign-order") subscribed)

abbrev pushed : Past
pushed = advance 2 (requested (codes "/orders-submitted") signed)

abbrev published : Past
published = advance 1 pushed

pushed_id : items (pushed.0.store.key topic) ≡ codes "abcd" ∷ []
unfolding route handle_task serve_task sign_task checked_task charged_task response_task store_task
    fee_task level_task fetch_task submitted_task submission_task found_task announce_task print
    read encode decode text_beq to_lower lookup insert reduce_by_level check_data with_broker_addr
    broker_address signed_response signed_order create_order_digest big_int has_key order_fields
    put_all itoa stack_name vip3_key
pushed_id = refl

message : get_elem? published.0.store.sent published.0.heard ≡ some (channel_new_order, topic)
unfolding route handle_task serve_task sign_task checked_task charged_task response_task store_task
    fee_task level_task fetch_task submitted_task submission_task found_task announce_task print
    read encode decode text_beq to_lower lookup insert reduce_by_level check_data with_broker_addr
    broker_address signed_response signed_order create_order_digest big_int has_key order_fields
    put_all itoa stack_name vip3_key
message = refl

abbrev received : Past
received = (_, turn published.1 (receive topic message))

popping_goes : popping topic ≢ over
popping_goes e = cc e

one_run : received.0.runs ≡ [] ++ popping topic ∷ []
unfolding route handle_task serve_task sign_task checked_task charged_task response_task store_task
    fee_task level_task fetch_task submitted_task submission_task found_task announce_task print
    read encode decode text_beq to_lower lookup insert reduce_by_level check_data with_broker_addr
    broker_address signed_response signed_order create_order_digest big_int has_key order_fields
    put_all itoa stack_name vip3_key
one_run = refl

-- Behind LPOP, and behind HGETALL.
abbrev popped : Past
popped = (_, turn received.1 (drain [] [] (popping topic) one_run popping_goes))

abbrev first : Run
first = reading topic (codes "abcd")

first_goes : first ≢ over
first_goes e = cc e

is_first : popped.0.runs ≡ [] ++ first ∷ []
unfolding route handle_task serve_task sign_task checked_task charged_task response_task store_task
    fee_task level_task fetch_task submitted_task submission_task found_task announce_task print
    read encode decode text_beq to_lower lookup insert reduce_by_level check_data with_broker_addr
    broker_address signed_response signed_order create_order_digest big_int has_key order_fields
    put_all itoa stack_name vip3_key run_turn
is_first = refl

abbrev found : Past
found = (_, turn popped.1 (drain [] [] first is_first first_goes))

abbrev second : Run
second = (run_turn (memory true) popped.0.hub.subs first popped.0.store).1

one_write : map (λ w. w.0) (run_turn (memory true) found.0.hub.subs second found.0.store).0 ≡ 7 ∷ []
unfolding route handle_task serve_task sign_task checked_task charged_task response_task store_task
    fee_task level_task fetch_task submitted_task submission_task found_task announce_task print
    read encode decode text_beq to_lower lookup insert reduce_by_level check_data with_broker_addr
    broker_address signed_response signed_order create_order_digest big_int has_key order_fields
    put_all itoa stack_name vip3_key run_turn notify broadcast new_hub handle_ws read_message
    handle_request subscribe_orders is_valid_order_topic trim_space cut_before cut_after atoi
    new_server
one_write = refl

run_turn-IsSent_example :
    All
      (IsSent toy
        (memory true)
        memory-Connected
        (λ t. some (pos 1))
        decoders
        config
        app
        two_bytes
        found.0
        (topic_of toy
          (memory true)
          memory-Connected
          (λ t. some (pos 1))
          decoders
          config
          app
          two_bytes
          second))
      (run_turn (memory true) found.0.hub.subs second found.0.store).0
run_turn-IsSent_example =
    run_turn-IsSent toy (memory true) memory-Connected (λ t. some (pos 1)) decoders config app
      two_bytes decodes_fits found.1 [] [] second refl

Came-IsKept_example :
    IsKept toy
      (memory true)
      memory-Connected
      (λ t. some (pos 1))
      decoders
      config
      app
      two_bytes
      pushed.0
Came-IsKept_example =
    Came-IsKept toy (memory true) memory-Connected (λ t. some (pos 1)) decoders config app two_bytes
      decodes_fits pushed.1

Came-Quiets_example :
    Quiets toy
      (memory true)
      memory-Connected
      (λ t. some (pos 1))
      decoders
      config
      app
      two_bytes
      pushed.0
    × (((t : Pool View) → ¬ Turn (memory true) pushed.0 t) → IsQuiet (memory true) pushed.0)
Came-Quiets_example =
    Came-Quiets toy (memory true) memory-Connected (λ t. some (pos 1)) decoders config app two_bytes
      decodes_fits pushed.1

Turn-Acc_example : Acc (Before (memory true)) pushed.0
Turn-Acc_example = Turn-Acc (memory true) memory-Connected pushed.0

second_goes : second ≢ over
unfolding route handle_task serve_task sign_task checked_task charged_task response_task store_task
    fee_task level_task fetch_task submitted_task submission_task found_task announce_task print
    read encode decode text_beq to_lower lookup insert reduce_by_level check_data with_broker_addr
    broker_address signed_response signed_order create_order_digest big_int has_key order_fields
    put_all itoa stack_name vip3_key run_turn
second_goes e = cc e

-- Behind the loop over the subscribers.
abbrev told : Past
told = (_, turn found.1 (drain [] [] second refl second_goes))

Came-told_example :
    AllTell toy
      (memory true)
      memory-Connected
      (λ t. some (pos 1))
      decoders
      config
      app
      two_bytes
      told.1
    × ((k id : Text)
        → (count id (
              all_pushed toy
                (memory true)
                memory-Connected
                (λ t. some (pos 1))
                decoders
                config
                app
                two_bytes
                told.1
                k)
            ≡ count id (
                all_told toy
                  (memory true)
                  memory-Connected
                  (λ t. some (pos 1))
                  decoders
                  config
                  app
                  two_bytes
                  told.1
                  k)
              + count id (
                  all_missed toy
                    (memory true)
                    memory-Connected
                    (λ t. some (pos 1))
                    decoders
                    config
                    app
                    two_bytes
                    told.1
                    k)
              + (count id (all_held told.0.runs k) + count id (items (told.0.store.key k))))
          × (IsQuiet (memory true) told.0
              → count id (
                  all_pushed toy
                    (memory true)
                    memory-Connected
                    (λ t. some (pos 1))
                    decoders
                    config
                    app
                    two_bytes
                    told.1
                    k)
                ≡ count id (
                    all_told toy
                      (memory true)
                      memory-Connected
                      (λ t. some (pos 1))
                      decoders
                      config
                      app
                      two_bytes
                      told.1
                      k)
                  + count id (
                      all_missed toy
                        (memory true)
                        memory-Connected
                        (λ t. some (pos 1))
                        decoders
                        config
                        app
                        two_bytes
                        told.1
                        k)))
unfolding route handle_task serve_task sign_task checked_task charged_task response_task store_task
    fee_task level_task fetch_task submitted_task submission_task found_task announce_task print
    read encode decode text_beq to_lower lookup insert reduce_by_level check_data with_broker_addr
    broker_address signed_response signed_order create_order_digest big_int has_key order_fields
    put_all itoa stack_name vip3_key
Came-told_example =
    Came-told toy (memory true) memory-Connected (λ t. some (pos 1)) decoders config app two_bytes
      decodes_fits told.1 ((((tt, tt), tt), tt), tt)

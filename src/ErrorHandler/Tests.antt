-- ===== src/ErrorHandler/Tests.antt =====
-- The theorem on the error handler at a concrete input, with a queue that is a list.
use cursor_embed_cus_mqtt_su.Base.{
  ℕ, ◌≡◌, ◌≢◌, refl, ap, arith, true, List, [], ◌∷◌, ◌++◌, Option, none, some, length, ltb, lt→ltb,
  ltb-false, if◌then◌else◌,
}
use cursor_embed_cus_mqtt_su.ErrorHandler.{
  Level, warning, error, fatal, Report, QueueApi, queue_size, Errors, null, error_handler_init,
  error_handler_register_callback, report_all, rounds,
}
use cursor_embed_cus_mqtt_su.ErrorHandler.Order.{
  IsQueue, last_message, reports, shown, reports_in_order,
}

take_first : List Report → Option (Report × List Report)
take_first [] = none
take_first (r ∷ rs) = some (r, rs)

abbrev list_api : QueueApi (List Report)
list_api = record {
  created = [];
  send = λ q r. if ltb (length q) queue_size then some (q ++ (r ∷ [])) else none;
  receive = take_first;
}

list_api-IsQueue : IsQueue list_api (λ q. q)
unfolding take_first
list_api-IsQueue = record {
  empty = refl;
  sent = λ q r h. (q ++ (r ∷ []), rw (lt→ltb (length q) queue_size h) refl, refl);
  full = λ q r h. rw (ltb-false (length q) queue_size h) refl;
  waits = λ q h. rw h refl;
  receives = λ q r rs h. (rs, rw h refl, refl);
}

abbrev first : Report
first = record {
  level = warning;
  code = 6;
  file = b'm' ∷ [];
  line = 36;
  func = b'r' ∷ [];
  timestamp = 100;
}

abbrev second : Report
second = record first { level = error; code = 7; line = 45 }

abbrev given : List (Report × List ℕ)
given = (first, b'M' ∷ b'1' ∷ []) ∷ ((second, b'F' ∷ b'2' ∷ []) ∷ [])

is_fatal : Level → ℕ
is_fatal fatal = 1
is_fatal _ = 0

warning-mild : warning ≢ fatal
unfolding is_fatal
warning-mild e = omega (arith, ap is_fatal e)

error-mild : error ≢ fatal
unfolding is_fatal
error-mild e = omega (arith, ap is_fatal e)

abbrev before : Errors (List Report)
before = record { error_queue = null; error_callback = none; message_buffer = [] }

reports_in_order_example :
    (mid : Errors (List Report)) × (after : Errors (List Report)) × (report_all list_api given (
        error_handler_register_callback list_api
          (some (3, 4))
          (error_handler_init list_api true true before).1)
      ≡ some mid)
    × (rounds list_api 2 mid
        ≡ some (shown (some (3, 4)) (last_message [] given) (reports given), after))
reports_in_order_example =
    reports_in_order list_api (λ q. q) before given (some (3, 4)) list_api-IsQueue (omega arith)
      (warning-mild, (error-mild, tt))

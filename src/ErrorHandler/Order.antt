-- ===== src/ErrorHandler/Order.antt =====
-- What becomes of the reports that wait in the queue.
use cursor_embed_cus_mqtt_su.Base.{
  ℕ, ◌+◌, ◌-◌, ◌≤◌, ◌<◌, ◌≡◌, ◌≢◌, refl, sym, ap, ◌∙◌, arith, true, false, List, [], ◌∷◌, ◌++◌,
  append_assoc, append-nil, map, Option, none, some, length, length-append, take, All,
}
use cursor_embed_cus_mqtt_su.ErrorHandler.{
  Level, info, warning, error, fatal, unknown, Report, QueueApi, queue_size, message_max, live,
  Errors, Action, logged, called, send_report, error_handler_init, error_handler_register_callback,
  error_handler_report, call_back, fatal_end, show_report, error_handler_task, report_all, rounds,
}

-- What FreeRTOS documents of a queue, by the reports in it.
pub record IsQueue {Q : Type 0} (api : QueueApi Q) (items : Q → List Report) : Type 0 where
  pub empty : items api.created ≡ []
  pub sent :
      (q : Q) (r : Report)
      → length (items q) < queue_size
      → (more : Q) × (api.send q r ≡ some more) × (items more ≡ items q ++ (r ∷ []))
  pub full : (q : Q) (r : Report) → queue_size ≤ length (items q) → api.send q r ≡ none
  pub waits : (q : Q) → items q ≡ [] → api.receive q ≡ none
  pub receives :
      (q : Q) (r : Report) (rs : List Report)
      → items q ≡ r ∷ rs
      → (rest : Q) × (api.receive q ≡ some (r, rest)) × (items rest ≡ rs)

-- The buffer behind some reports.
pub last_message : List ℕ → List (Report × List ℕ) → List ℕ
last_message before [] = before
last_message before ((r, text) ∷ more) = last_message (take (message_max - 1) text) more

abbrev report_of : Report × List ℕ → Report
report_of p = p.0

abbrev pub reports : List (Report × List ℕ) → List Report
reports = map report_of

-- What is shown of a report, in the log and to the callback.
abbrev pub shown : Option (ℕ × ℕ) → List ℕ → List Report → List Action
shown callback message [] = []
shown none message (r ∷ rs) = logged r message ∷ shown none message rs
shown (some (f, user)) message (r ∷ rs) =
    logged r message ∷ (called f user r message ∷ shown (some (f, user)) message rs)

abbrev pub IsMild : Report → Type 0
IsMild r = r.level ≢ fatal

module _ {Q : Type 0} (api : QueueApi Q) (items : Q → List Report) (law : IsQueue api items) where
  report_lem :
      (r : Report) (text : List ℕ) (q : Q) (callback : Option (ℕ × ℕ)) (buffer : List ℕ)
      → length (items q) < queue_size
      → (more : Q) × (error_handler_report api r text
            (record { error_queue = live q; error_callback = callback; message_buffer = buffer })
          ≡ some (
            record {
              error_queue = live more;
              error_callback = callback;
              message_buffer = take (message_max - 1) text;
            },
            false,
          ))
        × (items more ≡ items q ++ (r ∷ []))
  unfolding error_handler_report send_report
  report_lem r text q callback buffer h =
      let (more, e, i) = law.sent q r h in (more, rw (e, send_report) refl, i)

  report_all_lem :
      (given : List (Report × List ℕ)) (q : Q) (callback : Option (ℕ × ℕ)) (buffer : List ℕ)
      → length (items q) + length given ≤ queue_size
      → (after : Q) × (report_all api given
            (record { error_queue = live q; error_callback = callback; message_buffer = buffer })
          ≡ some (record {
            error_queue = live after;
            error_callback = callback;
            message_buffer = last_message buffer given;
          }))
        × (items after ≡ items q ++ reports given)
  unfolding report_all last_message
  report_all_lem [] q callback buffer h = (q, refl, sym (append-nil (items q)))
  report_all_lem ((r, text) ∷ more) q callback buffer h =
      let (next, e, i) = report_lem r text q callback buffer (omega arith) in
      let (after, f, j) =
        report_all_lem more next callback (take (message_max - 1) text)
          (rw i (omega (arith, length-append (items q) (r ∷ [])))) in
      (after, rw (e, report_all) f, j ∙ rw i (append_assoc (items q) (r ∷ []) (reports more)))

  mild_end : (l : Level) → l ≢ fatal → fatal_end api l ≡ []
  unfolding fatal_end
  mild_end info h = refl
  mild_end warning h = refl
  mild_end error h = refl
  mild_end fatal h = absurd (h refl)
  mild_end unknown h = refl

  rounds_lem :
      (rs : List Report) (q : Q) (callback : Option (ℕ × ℕ)) (buffer : List ℕ)
      → items q ≡ rs
      → All IsMild rs
      → (after : Q) × (rounds api
            (length rs)
            (record { error_queue = live q; error_callback = callback; message_buffer = buffer })
          ≡ some (
            shown callback buffer rs,
            record { error_queue = live after; error_callback = callback; message_buffer = buffer },
          ))
        × (items after ≡ [])
  unfolding rounds error_handler_task show_report call_back
  rounds_lem [] q callback buffer e m = (q, refl, e)
  rounds_lem (r ∷ rs) q none buffer e (m, ms) =
      let (rest, f, i) = law.receives q r rs e in
      let (after, g, j) = rounds_lem rs rest none buffer i ms in
      (after, rw (f, rounds) (rw (g, mild_end r.level m) refl), j)
  rounds_lem (r ∷ rs) q (some (callback, user)) buffer e (m, ms) =
      let (rest, f, i) = law.receives q r rs e in
      let (after, g, j) = rounds_lem rs rest (some (callback, user)) buffer i ms in
      (after, rw (f, rounds) (rw (g, mild_end r.level m) refl), j)

-- Behind `error_handler_init`, and with any callback or none, up to 20 reports, none of them fatal, are all
-- shown, in order, by as many rounds of the task, in the log and to the callback; but each of them with the
-- message of the last one, whose text is what the shared buffer holds by then.
pub reports_in_order :
    {Q : Type 0} (api : QueueApi Q) (items : Q → List Report) (s : Errors Q)
    (given : List (Report × List ℕ)) (callback : Option (ℕ × ℕ))
    → IsQueue api items
    → length given ≤ queue_size
    → All IsMild (reports given)
    → (mid : Errors Q) × (after : Errors Q) × (report_all api given
          (error_handler_register_callback api callback (error_handler_init api true true s).1)
        ≡ some mid)
      × (rounds api (length given) mid
          ≡ some (shown callback (last_message s.message_buffer given) (reports given), after))
unfolding error_handler_init error_handler_register_callback
reports_in_order api items s given callback law h m =
    let buffer = s.message_buffer in
    let (q, e, i) =
      report_all_lem api items law given api.created callback buffer
        (omega (arith, h, ap (λ l. length {A = Report} l) law.empty)) in
    let (after, f, j) =
      rounds_lem api items law (reports given) q callback (last_message buffer given)
        (i ∙ rw law.empty refl) m in
    (
      record {
        error_queue = live q;
        error_callback = callback;
        message_buffer = last_message buffer given;
      },
      record {
        error_queue = live after;
        error_callback = callback;
        message_buffer = last_message buffer given;
      },
      e,
      rw (length-reports given) f,
    )
  where
    length-reports : (xs : List (Report × List ℕ)) → length xs ≡ length (reports xs)
    length-reports [] = refl
    length-reports (x ∷ xs) = omega (arith, length-reports xs)

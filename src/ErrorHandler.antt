-- ===== src/ErrorHandler.antt =====
-- main/error_handler.c: the queue of the reports, the task that shows them, and the buffer of the message,
-- which all reports share. The queue is FreeRTOS's: a parameter. A call and a round of the task are one
-- step each.
pub mod Order
mod Tests
use cursor_embed_cus_mqtt_su.Base.{
  ℕ, zero, suc, ◌-◌, Bool, true, false, not, List, [], ◌∷◌, ◌++◌, Option, none, some, take,
  if◌then◌else◌,
}
use cursor_embed_cus_mqtt_su.Base.Esp.{EspError}

-- error_level_t; any other number is one case.
pub data Level : Type 0 where
  info warning error fatal unknown : Level

-- error_info_t without the pointer to the message, which is the same for all.
pub record Report : Type 0 where
  pub level : Level
  pub code : ℕ
  pub file : List ℕ
  pub line : ℕ
  pub func : List ℕ
  pub timestamp : ℕ

-- The calls of FreeRTOS on a queue of ERROR_QUEUE_SIZE reports: `none` is a full queue for a send and an
-- empty one for a receive.
pub record QueueApi (Q : Type 0) : Type 0 where
  pub created : Q
  pub send : Q → Report → Option Q
  pub receive : Q → Option (Report × Q)

abbrev pub queue_size : ℕ
queue_size = 20

abbrev pub message_max : ℕ
message_max = 256

-- error_queue: NULL, or a queue that was deleted, or a queue.
pub data Handle (Q : Type 0) : Type 0 where
  null deleted : Handle Q
  live : Q → Handle Q

-- The static variables: the callback has its address and its data.
pub record Errors (Q : Type 0) : Type 0 where
  pub error_queue : Handle Q
  pub error_callback : Option (ℕ × ℕ)
  pub message_buffer : List ℕ

-- What the task does with a report: a line of the log with the message, the callback with both, or a
-- restart.
pub data Action : Type 0 where
  logged : Report → List ℕ → Action
  called : ℕ → ℕ → Report → List ℕ → Action
  restarted : Action

module _ {Q : Type 0} (api : QueueApi Q) where
  -- The arguments say whether the queue and the task are made.
  pub error_handler_init : Bool → Bool → Errors Q → Option EspError × Errors Q
  error_handler_init queue task s =
      if not queue
      then (some EspError.no_mem, record s { error_queue = null })
      else (if not task
          then (some EspError.no_mem, record s { error_queue = deleted })
          else (none, record s { error_queue = live api.created }))

  pub error_handler_register_callback : Option (ℕ × ℕ) → Errors Q → Errors Q
  error_handler_register_callback callback s = record s { error_callback = callback }

  -- The queue behind a send, and whether the report was dropped.
  pub send_report : Report → Errors Q → Q → Errors Q × Bool
  send_report r s q = elim (api.send q r) [
    | none ↦ (s, true)
    | some more ↦ (record s { error_queue = live more }, false)
  ]

  -- For a report and its text after formatting. `none` uses a queue that was deleted.
  pub error_handler_report : Report → List ℕ → Errors Q → Option (Errors Q × Bool)
  unfolding send_report
  error_handler_report r text s = elim s.error_queue [
    | null ↦ some (s, false)
    | deleted ↦ none
    | live q ↦ some (send_report r (record s { message_buffer = take (message_max - 1) text }) q)
  ]

  -- The callback, if there is one.
  pub call_back : Option (ℕ × ℕ) → Report → List ℕ → List Action
  call_back none r message = []
  call_back (some (callback, user)) r message = called callback user r message ∷ []

  -- What a fatal report adds.
  pub fatal_end : Level → List Action
  fatal_end fatal = restarted ∷ []
  fatal_end _ = []

  -- A report that was received: its message is what the buffer holds now.
  pub show_report : Report → Errors Q → List Action
  unfolding call_back fatal_end
  show_report r s =
      logged r s.message_buffer
      ∷ (call_back s.error_callback r s.message_buffer ++ fatal_end r.level)

  -- A round of the task; without a report it waits. `none` uses what is no queue.
  pub error_handler_task : Errors Q → Option (List Action × Errors Q)
  unfolding show_report
  error_handler_task s = elim s.error_queue [
    | null ↦ none
    | deleted ↦ none
    | live q ↦ elim (api.receive q) [
      | none ↦ some ([], s)
      | some (r, rest) ↦ some (show_report r s, record s { error_queue = live rest })
    ]
  ]

  -- Reports with their texts that follow each other.
  pub report_all : List (Report × List ℕ) → Errors Q → Option (Errors Q)
  report_all [] s = some s
  report_all ((r, text) ∷ more) s = elim (error_handler_report r text s) [
    | none ↦ none
    | some (t, dropped) ↦ report_all more t
  ]

  -- Rounds of the task, with all they do.
  pub rounds : ℕ → Errors Q → Option (List Action × Errors Q)
  rounds zero s = some ([], s)
  rounds (suc n) s = elim (error_handler_task s) [
    | none ↦ none
    | some (actions, t) ↦ elim (rounds n t) [
      | none ↦ none
      | some (more, u) ↦ some (actions ++ more, u)
    ]
  ]

-- ===== src/Command/Watch/Timeline.antt =====
-- The state of pyscan/adapters/output/monitor_tui.py: the engine's detector, the evidence timeline,
-- the log of alerts, and the reports that are written. The worker's thread, the widgets and the
-- markup are left out: an event is the call of a handler, and a line of the log is what it is about.
use pyscan.Detect.State.{absent, Alert, Detector, fresh, baseline_of, joined}
use pyscan.Prelude.{
  ◌≡◌, refl, sym, ap, ◌∙◌, Option, none, some, List, [], ◌∷◌, ◌++◌, append-nil, append_assoc, Text,
  codes, strip,
}
use pyscan.Command.Watch.{build_report, baseline_of, joined, listed}
use pyscan.Command.Watch.Entries.{Entry, severity_text, alert_detail}

pub data LogLine (T : Type 0) : Type 0 where
  alert_line : (alert : Alert T) → LogLine T
  text_line : (text : Text) → LogLine T

pub record MonitorApp (T : Type 0) : Type 0 where
  pub service : Option Detector
  pub timeline : List Entry
  pub log : List (LogLine T)
  pub reports : List Text

-- The handlers, with what they read of the clock, the input fields and the worker.
pub data MonitorEvent (T : Type 0) : Type 0 where
  started : (hmi plcs label : Text) → MonitorEvent T
  alerted : (now : Text) (detector : Detector) (alert : Alert T) → MonitorEvent T
  stopped cleared : MonitorEvent T
  note_added : (now value : Text) → MonitorEvent T
  exported : (now day second path : Text) → MonitorEvent T

-- `self._service.detector if self._service else Detector()`
unfoldable pub service_detector : Option Detector → Detector
service_detector none = fresh (baseline_of absent absent)
service_detector (some d) = d

module _ {T : Type 0} where
  unfoldable pub add_event : MonitorApp T → Text → Text → Text → MonitorApp T
  add_event app now kind detail = record app {
    timeline = app.timeline ++ (record { when = now; kind = kind; detail = detail } ∷ []);
  }

  unfoldable pub write : MonitorApp T → LogLine T → MonitorApp T
  write app line = record app { log = app.log ++ (line ∷ []) }

  -- `_start`: the message, and a service with a fresh detector of the two fields.
  unfoldable pub start : MonitorApp T → Text → Text → Text → MonitorApp T
  unfolding write listed
  start app hmi plcs label =
      let baseline = baseline_of (joined hmi) (joined plcs) in
      let message =
        codes "monitoring "
        ++ (label
            ++ (codes " - HMI: "
                ++ (listed baseline.hmi (codes "unset")
                    ++ (codes " - protecting: "
                        ++ listed baseline.plcs (codes "every OT destination"))))) in
      record (write app (text_line message)) { service = some (fresh baseline) }

  unfoldable pub show_alert : MonitorApp T → Text → Detector → Alert T → MonitorApp T
  unfolding write add_event severity_text alert_detail
  show_alert app now detector alert =
      add_event (record (write app (alert_line alert)) { service = some detector }) now
        (severity_text alert.severity) (alert_detail alert)

  unfoldable pub on_add_note : MonitorApp T → Text → Text → MonitorApp T
  unfolding strip add_event
  on_add_note app now value = elim (strip value) as (λ _. MonitorApp T) [
    | [] ↦ app
    | c ∷ t ↦ add_event app now (codes "NOTE") (c ∷ t)
  ]

  unfoldable pub on_export : MonitorApp T → Text → Text → Text → Text → MonitorApp T
  unfolding add_event build_report service_detector
  on_export app now day second path =
      add_event
        (record app {
          reports =
              app.reports
              ++ (build_report day second (service_detector app.service) app.timeline ∷ []);
        })
        now (codes "REPORT") (codes "exported -> " ++ path)

  unfoldable pub on_event : MonitorApp T → MonitorEvent T → MonitorApp T
  unfolding start show_alert on_add_note on_export write
  on_event app (started hmi plcs label) = start app hmi plcs label
  on_event app (alerted now detector alert) = show_alert app now detector alert
  on_event app stopped = write app (text_line (codes "capture stopped"))
  on_event app cleared = record app { log = [] }
  on_event app (note_added now value) = on_add_note app now value
  on_event app (exported now day second path) = on_export app now day second path

  unfoldable pub on_events : MonitorApp T → List (MonitorEvent T) → MonitorApp T
  unfolding on_event
  on_events app [] = app
  on_events app (event ∷ events) = on_events (on_event app event) events

  -- What an event adds to the evidence.
  abbrev pub recorded : MonitorEvent T → List Entry
  recorded (started hmi plcs label) = []
  recorded (alerted now detector alert) =
      record { when = now; kind = severity_text alert.severity; detail = alert_detail alert } ∷ []
  recorded stopped = []
  recorded cleared = []
  recorded (note_added now value) = elim (strip value) as (λ _. List Entry) [
    | [] ↦ []
    | c ∷ t ↦ record { when = now; kind = codes "NOTE"; detail = c ∷ t } ∷ []
  ]
  recorded (exported now day second path) =
      record { when = now; kind = codes "REPORT"; detail = codes "exported -> " ++ path } ∷ []

  abbrev pub recorded_all : List (MonitorEvent T) → List Entry
  recorded_all [] = []
  recorded_all (event ∷ events) = recorded event ++ recorded_all events

  on_event-timeline :
      (app : MonitorApp T) (event : MonitorEvent T)
      → (on_event app event).timeline ≡ app.timeline ++ recorded event
  unfolding on_event start show_alert on_add_note on_export write add_event
  on_event-timeline app (started hmi plcs label) = sym (append-nil app.timeline)
  on_event-timeline app (alerted now detector alert) = refl
  on_event-timeline app stopped = sym (append-nil app.timeline)
  on_event-timeline app cleared = sym (append-nil app.timeline)
  on_event-timeline app (note_added now value) = note (strip value)
    where
      note :
          (t : Text)
          → (elim t as (λ _. MonitorApp T) [
            | [] ↦ app
            | c ∷ r ↦ add_event app now (codes "NOTE") (c ∷ r)
          ]).timeline
            ≡ app.timeline ++ (elim t as (λ _. List Entry) [
              | [] ↦ []
              | c ∷ r ↦ record { when = now; kind = codes "NOTE"; detail = c ∷ r } ∷ []
            ])
      note [] = sym (append-nil app.timeline)
      note (c ∷ r) = refl
  on_event-timeline app (exported now day second path) = refl

  -- The timeline is append-only: behind any events, in any order, also clears, stops and restarts of
  -- the engine, it is what it was and then one entry for each alert, each note that is not blank and
  -- each report, in the order of the events.
  pub on_events-timeline :
      (events : List (MonitorEvent T)) (app : MonitorApp T)
      → (on_events app events).timeline ≡ app.timeline ++ recorded_all events
  unfolding on_events
  on_events-timeline [] app = sym (append-nil app.timeline)
  on_events-timeline (event ∷ events) app =
      on_events-timeline events (on_event app event)
      ∙ ap (λ entries. entries ++ recorded_all events) (on_event-timeline app event)
      ∙ append_assoc app.timeline (recorded event) (recorded_all events)

-- ===== src/Startup/Shutdown.antt =====
-- main.py: the end of the service.
use auth_profile_service.Common.{
  ◌≡◌, ◌∙◌, refl, inl, inr, ap, true, false, Option, none, some, List, [], ◌∷◌, All, if◌then◌else◌,
  Bool-cases,
}
use auth_profile_service.Auth.Errors.{Result, ok}
use auth_profile_service.Security.Settings.{Settings}
use auth_profile_service.Startup.{
  Ending, go_on, with_rest, ◌then◌, stop_consumers, stop_dispatcher, stop_publisher, ClientCall,
  Task, Consumer, App, cancel_and_wait, stop_task, stop_consumer, stop_each, stop_service,
}

-- Nothing was raised in the task.
abbrev pub IsUnfailed : Option Task → Type 0
IsUnfailed none = Unit
IsUnfailed (some (Task.failed e)) = ⊥
IsUnfailed (some t) = Unit

-- No task runs.
abbrev pub IsEnded : Option Task → Type 0
IsEnded (some Task.running) = ⊥
IsEnded t = Unit

abbrev pub IsStopped : Consumer → Type 0
IsStopped c = (c.is_open ≡ false) × IsEnded c.task

-- What the stop of a task makes of one in which nothing was raised.
abbrev stopped : Option Task → Option Task
stopped (some Task.running) = some Task.cancelled
stopped t = t

stopped-IsEnded : (t : Option Task) → IsEnded (stopped t)
stopped-IsEnded none = tt
stopped-IsEnded (some Task.running) = tt
stopped-IsEnded (some Task.cancelled) = tt
stopped-IsEnded (some Task.returned) = tt
stopped-IsEnded (some (Task.failed e)) = tt

stop_task_ok : (t : Option Task) → IsUnfailed t → stop_task t ≡ ok (stopped t)
unfolding cancel_and_wait stop_task
stop_task_ok none h = refl
stop_task_ok (some Task.running) h = refl
stop_task_ok (some Task.cancelled) h = refl
stop_task_ok (some Task.returned) h = refl
stop_task_ok (some (Task.failed e)) h = elim h [ ]

then_ok : (f g : Ending) (app app' : App) → f app ≡ (ok tt, app') → (f then g) app ≡ g app'
then_ok f g app app' e = ap (λ x. go_on x g) e

module _ (answers : ClientCall → Result (Unit {0}))
    (quiet : (call : ClientCall) → answers call ≡ ok tt) where
  stop_consumer_ok :
      (c : Consumer)
      → IsUnfailed c.task
      → stop_consumer answers c ≡ (ok tt, record c { is_open = false; task = stopped c.task })
  unfolding stop_consumer
  stop_consumer_ok c h = elim (Bool-cases c.is_open) [
    | inl e ↦ rw (stop_task_ok c.task h, stop_consumer, e, quiet (ClientCall.consumer_stop c.topic))
    | inr e ↦ rw (stop_task_ok c.task h, stop_consumer, e)
  ]

  abbrev pub ended : List Consumer → List Consumer
  ended [] = []
  ended (c ∷ cs) = record c { is_open = false; task = stopped c.task } ∷ ended cs

  ended-IsStopped : (cs : List Consumer) → All IsStopped (ended cs)
  ended-IsStopped [] = tt
  ended-IsStopped (c ∷ cs) = ((refl, stopped-IsEnded c.task), ended-IsStopped cs)

  stop_each_ok :
      (cs : List Consumer)
      → All (λ (c : Consumer). IsUnfailed c.task) cs
      → stop_each answers cs ≡ (ok tt, ended cs)
  unfolding stop_each
  stop_each_ok [] h = refl
  stop_each_ok (c ∷ cs) h =
      ap (λ x. with_rest x cs (stop_each answers cs)) (stop_consumer_ok c h.0)
      ∙ ap (λ y. with_rest (ok tt, record c { is_open = false; task = stopped c.task }) cs y)
          (stop_each_ok cs h.1)

  -- The process after its end.
  abbrev after_end : App → App
  after_end app = record app {
    consumers = ended app.consumers;
    dispatcher = stopped app.dispatcher;
    publisher_open = false;
    presence_open = false;
    blacklist_open = false;
    engine_open = false;
  }

  stop_publisher_ok :
      (app : App) → stop_publisher answers app ≡ (ok tt, record app { publisher_open = false })
  stop_publisher_ok app = elim (Bool-cases app.publisher_open) [
    | inl e ↦ simp (e, quiet ClientCall.producer_stop)
    | inr e ↦ simp e (ap (λ b. (ok tt, record app { publisher_open = b })) e)
  ]

  stop_service_ok :
      (s : Settings) (app : App)
      → s.kafka_enabled ≡ true
      → All (λ (c : Consumer). IsUnfailed c.task) app.consumers
      → IsUnfailed app.dispatcher
      → stop_service answers s app ≡ (ok tt, after_end app)
  unfolding stop_service
  stop_service_ok s app on cs d =
      let app' : App = record app { consumers = ended app.consumers } in
      rw (on, stop_service)
        (then_ok (stop_consumers answers) _ app app'
            (ap (λ x. (x.0, record app { consumers = x.1 })) (stop_each_ok app.consumers cs))
          ∙ then_ok (stop_dispatcher answers) _ app'
              (record app' { dispatcher = stopped app.dispatcher })
              (rw (stop_task_ok app.dispatcher d, stop_dispatcher))
          ∙ then_ok (stop_publisher answers) _ (record app' { dispatcher = stopped app.dispatcher })
              (record app' { dispatcher = stopped app.dispatcher; publisher_open = false })
              (stop_publisher_ok _)
          ∙ simp (
            quiet ClientCall.presence_close,
            quiet ClientCall.blacklist_close,
            quiet ClientCall.engine_dispose,
          ))

  -- Where Kafka is on, nothing was raised in the tasks and every call of a client returns: the end of the
  -- service returns, and leaves no consumer and no client open, and no task running.
  pub stop_service_lem :
      (s : Settings) (app : App)
      → s.kafka_enabled ≡ true
      → All (λ (c : Consumer). IsUnfailed c.task) app.consumers
      → IsUnfailed app.dispatcher
      → let (r, app') = stop_service answers s app in
        (r ≡ ok tt)
        × All IsStopped app'.consumers
        × IsEnded app'.dispatcher
        × (app'.publisher_open ≡ false)
        × (app'.presence_open ≡ false)
        × (app'.blacklist_open ≡ false)
        × (app'.engine_open ≡ false)
  stop_service_lem s app on cs d = rw (stop_service_ok s app on cs d) (
      (refl, ended-IsStopped app.consumers, stopped-IsEnded app.dispatcher, refl, refl, refl, refl))

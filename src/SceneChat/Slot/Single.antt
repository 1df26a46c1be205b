-- ===== src/SceneChat/Slot/Single.antt =====
-- The slot and the counts of backend/modeldeck/workers/scenechat_worker.py.
use model_deck.Base.{
  ℕ, suc, ◌+◌, ◌≡◌, refl, inl, inr, String, Bool, true, false, ◌&&◌, ◌==◌, Option, none, some, List,
  [], ◌∷◌, arith, if◌then◌else◌, str_eq, eq_iff, is_none, Bool-cases,
}
use model_deck.Supervisor.{ready, failed}
use model_deck.SceneChat.{
  App, starts, new_app, load_engine, warmup, warmed_up, has_slot, cancel, shutdown, claim_slot,
  release_slot, Chat, chat, ChatEnd, chat_body, end_chat, smoke, end_smoke, run_generation,
  image_refused, generated, result, raises, task_done, timed_out, disconnected,
}
use model_deck.SceneChat.Slot.{
  Task, System, SlotAction, loads, warms_up, warmup_starts, shuts_down, cancels, chats, smokes,
  chat_ends, smoke_ends, runs, without_task, started, act, act_all, new_system,
}

-- what has the slot is what runs
abbrev pub holds_slot : Option String → List Task → Bool
holds_slot active [] = is_none active
holds_slot none (t ∷ ts) = false
holds_slot (some id) (t ∷ []) = str_eq id t.id
holds_slot (some id) (t ∷ u ∷ ts) = false

-- the chat requests among them
abbrev pub chats_in : List Task → ℕ
chats_in [] = 0
chats_in (t ∷ ts) = if t.is_smoke then chats_in ts else suc (chats_in ts)

abbrev pub is_counted : App → List Task → Bool
is_counted a ts = a.requests == a.successes + a.failures + chats_in ts

abbrev pub is_single : System → Bool
is_single s = holds_slot s.app.active_request_id s.running && is_counted s.app s.running

-- a task list whose request has the slot is that task alone
holds_slot-runs :
    (active : Option String) (ts : List Task) (id : String) (probe : Bool)
    → holds_slot active ts ≡ true
    → runs id probe ts ≡ true
    → has_slot id active ≡ true
holds_slot-runs none [] id probe h r = ground (arith, r)
holds_slot-runs (some a) [] id probe h r = ground (arith, r)
holds_slot-runs none (t ∷ ts) id probe h r = ground (arith, h)
holds_slot-runs (some a) (t ∷ []) id probe h r = ground (arith, h, r, eq_iff a t.id)
holds_slot-runs (some a) (t ∷ u ∷ ts) id probe h r = ground (arith, h)

without_task-gone :
    (active : Option String) (ts : List Task) (id : String) (probe : Bool)
    → holds_slot active ts ≡ true
    → runs id probe ts ≡ true
    → without_task id probe ts ≡ []
without_task-gone active [] id probe h r = refl
without_task-gone none (t ∷ ts) id probe h r = ground (arith, h)
without_task-gone (some a) (t ∷ []) id probe h r = ground (arith, h, r)
without_task-gone (some a) (t ∷ u ∷ ts) id probe h r = ground (arith, h)

chats_in-one :
    (active : Option String) (ts : List Task) (id : String) (probe : Bool)
    → holds_slot active ts ≡ true
    → runs id probe ts ≡ true
    → chats_in ts ≡ (if probe then 0 else 1)
chats_in-one active [] id probe h r = ground (arith, r)
chats_in-one none (t ∷ ts) id probe h r = ground (arith, h)
chats_in-one (some a) (t ∷ []) id probe h r = ground (arith, r)
chats_in-one (some a) (t ∷ u ∷ ts) id probe h r = ground (arith, h)

-- a free slot means that nothing runs
idle :
    (active : Option String) (ts : List Task)
    → holds_slot active ts ≡ true
    → is_none active ≡ true
    → ts ≡ []
idle active [] h n = refl
idle none (t ∷ ts) h n = ground (arith, h)
idle (some a) (t ∷ ts) h n = ground (arith, n)

chat-is_single :
    (c : Chat) (s : System)
    → is_single s ≡ true
    → is_single (started false (chat c s.app) s.running) ≡ true
unfolding chat claim_slot
chat-is_single c s h = elim (Bool-cases (is_none s.app.active_request_id)) [
  | inl n ↦
      ground (arith, h, n, idle s.app.active_request_id s.running, eq_iff c.request_id c.request_id)
  | inr n ↦ ground (arith, h, n)
]

smoke-is_single :
    (authorised : Bool) (id : String) (s : System)
    → is_single s ≡ true
    → is_single (started true (smoke authorised id s.app) s.running) ≡ true
unfolding smoke claim_slot
smoke-is_single authorised id s h = elim (Bool-cases (is_none s.app.active_request_id)) [
  | inl n ↦ ground (arith, h, n, idle s.app.active_request_id s.running, eq_iff id id)
  | inr n ↦ ground (arith, h, n)
]

-- An end changes the counts of one request and not the slot.
chat_body-counts :
    (e : ChatEnd) (a : App)
    → (((chat_body e a).0.requests == a.requests)
        && ((chat_body e a).0.successes + (chat_body e a).0.failures
            == suc (a.successes + a.failures)))
      ≡ true
unfolding chat_body run_generation
chat_body-counts image_refused a = ground arith
chat_body-counts (generated stop raises valid) a = ground arith
chat_body-counts (generated timed_out (result c) valid) a = ground arith
chat_body-counts (generated disconnected (result c) valid) a = ground arith
chat_body-counts (generated task_done (result c) valid) a = ground arith

chat_body-slot : (e : ChatEnd) (a : App) → (chat_body e a).0.active_request_id ≡ a.active_request_id
unfolding chat_body run_generation
chat_body-slot image_refused a = refl
chat_body-slot (generated stop raises valid) a = refl
chat_body-slot (generated timed_out (result c) valid) a = refl
chat_body-slot (generated disconnected (result c) valid) a = refl
chat_body-slot (generated task_done (result c) valid) a = ground arith

release_slot-free :
    (id : String) (a : App)
    → has_slot id a.active_request_id ≡ true
    → ((release_slot id a).active_request_id ≡ none)
      × ((release_slot id a).requests ≡ a.requests)
      × ((release_slot id a).successes ≡ a.successes)
      × ((release_slot id a).failures ≡ a.failures)
unfolding release_slot
release_slot-free id a h = rw (release_slot, h) (refl, refl, refl, refl)

end_chat-is_single :
    (id : String) (e : ChatEnd) (s : System)
    → is_single s ≡ true
    → runs id false s.running ≡ true
    → is_single
        (record { app = (end_chat id e s.app).0; running = without_task id false s.running })
      ≡ true
unfolding end_chat
end_chat-is_single id e s h r =
    let held : holds_slot s.app.active_request_id s.running ≡ true = ground (arith, h) in
    let active = holds_slot-runs s.app.active_request_id s.running id false held r in
    let a' = (chat_body e s.app).0 in
    let freed = release_slot-free id a' (rw (chat_body-slot e s.app) active) in
    ground (
      arith,
      h,
      freed,
      without_task-gone s.app.active_request_id s.running id false held r,
      chats_in-one s.app.active_request_id s.running id false held r,
      chat_body-counts e s.app,
    )

end_smoke-is_single :
    (id : String) (s : System)
    → is_single s ≡ true
    → runs id true s.running ≡ true
    → is_single (record { app = end_smoke id s.app; running = without_task id true s.running })
      ≡ true
unfolding end_smoke
end_smoke-is_single id s h r =
    let held : holds_slot s.app.active_request_id s.running ≡ true = ground (arith, h) in
    let active = holds_slot-runs s.app.active_request_id s.running id true held r in
    ground (
      arith,
      h,
      release_slot-free id s.app active,
      without_task-gone s.app.active_request_id s.running id true held r,
      chats_in-one s.app.active_request_id s.running id true held r,
    )

act-is_single : (x : SlotAction) (s : System) → is_single s ≡ true → is_single (act x s) ≡ true
unfolding act load_engine warmup warmed_up shutdown cancel
act-is_single (loads true) s h = h
act-is_single (loads false) s h = h
act-is_single warmup_starts s h = ground (arith, h)
act-is_single (warms_up true) s h = h
act-is_single (warms_up false) s h = h
act-is_single shuts_down s h = h
act-is_single (cancels id) s h = ground (arith, h)
act-is_single (chats c) s h = chat-is_single c s h
act-is_single (smokes authorised id) s h = smoke-is_single authorised id s h
act-is_single (chat_ends id e) s h = elim (Bool-cases (runs id false s.running)) [
  | inl r ↦ rw (act, r) (end_chat-is_single id e s h r)
  | inr r ↦ rw (act, r) h
]
act-is_single (smoke_ends id) s h = elim (Bool-cases (runs id true s.running)) [
  | inl r ↦ rw (act, r) (end_smoke-is_single id s h r)
  | inr r ↦ rw (act, r) h
]

keep_single :
    (xs : List SlotAction) (s : System) → is_single s ≡ true → is_single (act_all xs s) ≡ true
unfolding act_all
keep_single [] s h = h
keep_single (x ∷ xs) s h = keep_single xs (act x s) (act-is_single x s h)

-- In every interleaving of loads, warm-ups, chat requests, smoke tests, cancellations and shutdowns, and
-- however the requests end: at most one request is between its claim of the slot and its end, and it is
-- the one whose identifier has the slot; and the chat requests that were let in are the successes, the
-- failures and the one that runs.
pub act_all-is_single : (xs : List SlotAction) → is_single (act_all xs new_system) ≡ true
unfolding new_app
act_all-is_single xs = keep_single xs new_system refl

-- A warm-up that fails after one that succeeded: the worker is FAILED and keeps the error, but stays
-- ready. It lets the next valid request in, and the end of that request, whatever it is, makes the state
-- READY again.
pub failed_warmup_forgotten :
    (a : App) (c : Chat) (e : ChatEnd)
    → a.is_ready ≡ true
    → a.active_request_id ≡ none
    → (c.authorised && c.model_allowed && c.messages_valid && c.has_safe_request_id) ≡ true
    → let broken = (warmed_up false a).0 in
      (broken.worker_state ≡ failed)
      × ((chat c broken).1 ≡ starts c.request_id)
      × ((end_chat c.request_id e (chat c broken).0).0.worker_state ≡ ready)
      × ((end_chat c.request_id e (chat c broken).0).0.has_load_error ≡ true)
unfolding warmed_up chat claim_slot end_chat release_slot chat_body run_generation
failed_warmup_forgotten a c image_refused r n v =
    ground (arith, r, n, v, eq_iff c.request_id c.request_id)
failed_warmup_forgotten a c (generated stop raises valid) r n v =
    ground (arith, r, n, v, eq_iff c.request_id c.request_id)
failed_warmup_forgotten a c (generated timed_out (result x) valid) r n v =
    ground (arith, r, n, v, eq_iff c.request_id c.request_id)
failed_warmup_forgotten a c (generated disconnected (result x) valid) r n v =
    ground (arith, r, n, v, eq_iff c.request_id c.request_id)
failed_warmup_forgotten a c (generated task_done (result x) valid) r n v =
    ground (arith, r, n, v, eq_iff c.request_id c.request_id)

-- ===== src/SceneChat/Slot.antt =====
-- Requests in every interleaving at the slot of backend/modeldeck/workers/scenechat_worker.py.
pub mod Single
use model_deck.Base.{
  ℕ, suc, ◌+◌, ◌≡◌, refl, ◌⊎◌, inl, inr, String, Bool, true, false, not, ◌&&◌, ◌||◌, Option, none,
  some, List, [], ◌∷◌, arith, if◌then◌else◌, str_eq, eq_iff, is_none, Bool-cases, length,
}
use model_deck.SceneChat.{
  App, Reply, ok, error, starts, new_app, load_engine, warmup, warmed_up, has_slot, cancel,
  shutdown, claim_slot, release_slot, Chat, chat, ChatEnd, chat_body, end_chat, smoke, end_smoke,
  conclude, run_generation, fail_with, image_refused, generated, Stop, Generated, result, raises,
  task_done, timed_out, disconnected,
}

-- a request that has the slot
pub record Task : Type 0 where
  pub id : String
  pub is_smoke : Bool

-- The application with the requests between their claim of the slot and their end.
pub record System : Type 0 where
  pub app : App
  pub running : List Task

pub data SlotAction : Type 0 where
  loads warms_up : Bool → SlotAction
  warmup_starts shuts_down : SlotAction
  cancels : String → SlotAction
  chats : Chat → SlotAction
  smokes : Bool → String → SlotAction
  chat_ends : String → ChatEnd → SlotAction
  smoke_ends : String → SlotAction

abbrev pub runs : String → Bool → List Task → Bool
runs id probe [] = false
runs id probe (t ∷ ts) =
    (str_eq t.id id && (if probe then t.is_smoke else not t.is_smoke)) || runs id probe ts

abbrev pub without_task : String → Bool → List Task → List Task
without_task id probe [] = []
without_task id probe (t ∷ ts) =
    let rest = without_task id probe ts in
    if str_eq t.id id && (if probe then t.is_smoke else not t.is_smoke) then ts else t ∷ rest

abbrev pub started : Bool → App × Reply → List Task → System
started probe (a, starts id) ts = record {
  app = a;
  running = record { id = id; is_smoke = probe } ∷ ts;
}
started probe (a, ok) ts = record { app = a; running = ts }
started probe (a, error code) ts = record { app = a; running = ts }

-- A request ends only if it runs.
unfoldable pub act : SlotAction → System → System
act (loads fine) s = record s { app = load_engine fine s.app }
act warmup_starts s = record s { app = (warmup s.app).0 }
act (warms_up fine) s = record s { app = (warmed_up fine s.app).0 }
act shuts_down s = record s { app = shutdown s.app }
act (cancels id) s = record s { app = (cancel id s.app).0 }
act (chats c) s = started false (chat c s.app) s.running
act (smokes authorised id) s = started true (smoke authorised id s.app) s.running
act (chat_ends id e) s =
    if runs id false s.running
    then record { app = (end_chat id e s.app).0; running = without_task id false s.running }
    else s
act (smoke_ends id) s =
    if runs id true s.running
    then record { app = end_smoke id s.app; running = without_task id true s.running }
    else s

unfoldable pub act_all : List SlotAction → System → System
act_all [] s = s
act_all (x ∷ xs) s = act_all xs (act x s)

abbrev pub new_system : System
new_system = record { app = new_app; running = [] }

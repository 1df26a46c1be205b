-- ===== src/Examples/Scenes.antt =====
-- The slot and the images of backend/modeldeck/workers/scenechat_worker.py.
use model_deck.Base.{
  ℕ, ◌*◌, ◌+◌, ◌≤◌, ◌≡◌, ◌==◌, refl, true, false, Option, none, some, List, [], ◌∷◌, length, arith,
  if◌then◌else◌,
}
use model_deck.Text.{codes, starts_with, same_text}
use model_deck.Supervisor.{failed, ready}
use model_deck.Autoregressive.Generation.{ends_with}
use model_deck.SceneChat.{
  App, starts, new_app, warmed_up, Chat, chat, end_chat, image_refused, generated, task_done,
  result, claim_slot, release_slot, smoke, load_engine, cancel, chat_body, run_generation,
  timed_out,
}
use model_deck.SceneChat.Slot.{
  SlotAction, loads, warms_up, chats, chat_ends, smokes, cancels, act, act_all, new_system,
}
use model_deck.SceneChat.Slot.Single.{is_single, act_all-is_single, failed_warmup_forgotten}
use model_deck.SceneChat.Image.{
  png, Source, decode_image, decode_payload, read_image, partition, expected_format,
}
use model_deck.SceneChat.Image.Accepted.{is_decoded, is_acceptable, decode_image-is_acceptable}

abbrev question : Chat
question = record {
  authorised = true;
  model_allowed = true;
  messages_valid = true;
  has_safe_request_id = true;
  request_id = "a";
}

-- The second request is turned away, the first one runs out of time, and the third one is served.
abbrev rush : List SlotAction
rush =
    loads true
    ∷ warms_up true
    ∷ chats question
    ∷ chats (record question { request_id = "b" })
    ∷ cancels "a"
    ∷ chat_ends "a" (generated timed_out (result true) false)
    ∷ chats (record question { request_id = "c" })
    ∷ chat_ends "c" (generated task_done (result false) true)
    ∷ smokes true "d"
    ∷ []

rush_counts :
    ((act_all rush new_system).app.successes ≡ 1)
    × ((act_all rush new_system).app.failures ≡ 1)
    × ((act_all rush new_system).app.concurrent_rejections ≡ 1)
unfolding act act_all new_app load_engine warmed_up chat claim_slot cancel end_chat chat_body
    run_generation release_slot smoke
rush_counts = (refl, refl, refl)

act_all-is_single_example : is_single (act_all rush new_system) ≡ true
act_all-is_single_example = act_all-is_single rush

abbrev up : App
up = record new_app { is_ready = true }

up_is_idle : up.active_request_id ≡ none
unfolding new_app
up_is_idle = refl

failed_warmup_forgotten_example :
    ((warmed_up false up).0.worker_state ≡ failed)
    × ((chat question (warmed_up false up).0).1 ≡ starts "a")
    × ((end_chat "a" image_refused (chat question (warmed_up false up).0).0).0.worker_state ≡ ready)
    × ((end_chat "a" image_refused (chat question (warmed_up false up).0).0).0.has_load_error
        ≡ true)
failed_warmup_forgotten_example =
    failed_warmup_forgotten up question image_refused refl up_is_idle refl

-- A decoder that knows texts of four characters, and a library for which all bytes are one picture.
abbrev four : List ℕ → Option (List ℕ)
four s = if length s == 4 then some (1 ∷ 2 ∷ 3 ∷ []) else none

abbrev picture : Source
picture = record { format = png; width = 4096; height = 3000; is_loadable = true }

abbrev one_picture : List ℕ → Option Source
one_picture bytes = if length bytes == 0 then none else some picture

four_strict :
    (s bytes : List ℕ)
    → four s ≡ some bytes
    → (k : ℕ) × (length s ≡ 4 * k) × (length bytes ≤ 3 * k) × (3 * k ≤ length bytes + 2)
four_strict s bytes e = (1, ground (arith, e), ground (arith, e), ground (arith, e))

nothing_is_no_picture : (bytes : List ℕ) → (length bytes == 0) ≡ true → one_picture bytes ≡ none
nothing_is_no_picture bytes z = rw z refl

abbrev url : List ℕ
url = codes "data:image/png;base64,AQID"

url_decoded : is_decoded (decode_image four one_picture url) ≡ true
unfolding decode_image decode_payload read_image partition expected_format starts_with ends_with
    same_text
url_decoded = refl

decode_image-is_acceptable_example :
    is_decoded (decode_image four one_picture url) ≡ is_acceptable four one_picture url
decode_image-is_acceptable_example =
    decode_image-is_acceptable four one_picture four_strict nothing_is_no_picture url

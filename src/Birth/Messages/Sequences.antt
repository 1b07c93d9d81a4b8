-- ===== src/Birth/Messages/Sequences.antt =====
-- What holds after every sequence of messages.
use mathlib.Core.Path.{subst}
use text.Mathlib.Text.{◌==◌ as str_eq}
use dbirth.Base.{
  ℕ, ◌+◌, String, Bool, true, false, ◌≡◌, sym, Option, none, some, List, [], ◌∷◌, if◌then◌else◌,
}
use dbirth.Birth.AliasCache.{AliasKey}
use dbirth.Birth.Aliases.Throttle.{
  Throttled, IsSpaced, resolve_name-Throttled, ingest_birth-Throttled,
}
use dbirth.Birth.Aliases.{Rebirths, Subscriber, AliasMap, ingest_birth, resolve_name}
use dbirth.Base.Dict.{Dict}
use dbirth.Birth.Messages.{
  Settings, World, Service, resolve_all, ingest, handle_decoded, handle_parts, metrics_of,
  on_message,
}
use dbirth.Birth.Payload.{Metric}
use dbirth.Birth.Topics.{TopicParts, topic_parts, key_of, device_for_alias}

-- a message, with the times at which its metrics are resolved
pub record Message : Type 0 where
  pub topic : String
  pub payload : List ℕ
  pub clock : ℕ → ℕ

-- the subscriber before its first message, with the registry that was loaded
abbrev pub open_subscriber : {F : Type 0} → Dict AliasKey (AliasMap F) → Subscriber F
open_subscriber maps = record { alias_maps = maps; last_rebirth_request = []; published = [] }

module _ {S F : Type 0} (settings : Settings) (w : World S F) where
  -- the messages of a connection, in their order
  unfoldable pub handle_all : List Message → Service S F → Service S F
  unfolding on_message
  handle_all [] s = s
  handle_all (m ∷ ms) s = handle_all ms (on_message settings w m.topic m.payload m.clock s)

module _ {F : Type 0} (settings : Rebirths) where
  resolve_all-Throttled :
      (key : AliasKey) (clock : ℕ → ℕ) (i : ℕ) (ms : List (Metric F)) (s : Subscriber F)
      → Throttled settings s
      → Throttled settings (resolve_all settings key clock i ms s).1
  unfolding resolve_all
  resolve_all-Throttled key clock i [] s t = t
  resolve_all-Throttled key clock i (m ∷ ms) s t =
      resolve_all-Throttled key clock (i + 1) ms (resolve_name settings key m (clock i) s).1
        (resolve_name-Throttled settings key m (clock i) s t)

  if-Throttled :
      (b : Bool) (x y : Subscriber F)
      → Throttled settings x
      → Throttled settings y
      → Throttled settings (if b then x else y)
  if-Throttled true x y h k = h
  if-Throttled false x y h k = k

  ingest-Throttled :
      (parts : TopicParts) (ms : List (Metric F)) (s : Subscriber F)
      → Throttled settings s
      → Throttled settings (ingest parts ms s)
  unfolding ingest
  ingest-Throttled parts ms s t =
      let of_node = ingest_birth (key_of parts none) ms s in
      let of_device = ingest_birth (key_of parts parts.device) ms s in
      if-Throttled (str_eq parts.msg_type "NBIRTH") of_node
        (if str_eq parts.msg_type "DBIRTH" then of_device else s)
        (ingest_birth-Throttled settings (key_of parts none) ms s t)
        (if-Throttled (str_eq parts.msg_type "DBIRTH") of_device s
          (ingest_birth-Throttled settings (key_of parts parts.device) ms s t) t)

module _ {S F : Type 0} (settings : Settings) (w : World S F) where
  decoded-Throttled :
      (topic : String) (parts : TopicParts) (clock : ℕ → ℕ) (metrics : Option (List (Metric F)))
      (s : Service S F)
      → Throttled settings.rebirths s.subscriber
      → Throttled settings.rebirths
          (handle_decoded settings w topic parts clock metrics s).subscriber
  decoded-Throttled topic parts clock none s t = t
  decoded-Throttled topic parts clock (some metrics) s t =
      resolve_all-Throttled settings.rebirths (key_of parts (device_for_alias parts)) clock 0
        metrics (ingest parts metrics s.subscriber)
        (ingest-Throttled settings.rebirths parts metrics s.subscriber t)

  parts-Throttled :
      (topic : String) (payload : List ℕ) (clock : ℕ → ℕ) (parts : Option TopicParts)
      (s : Service S F)
      → Throttled settings.rebirths s.subscriber
      → Throttled settings.rebirths (handle_parts settings w topic payload clock parts s).subscriber
  parts-Throttled topic payload clock none s t = t
  parts-Throttled topic payload clock (some parts) s t =
      decoded-Throttled topic parts clock (metrics_of settings w payload) s t

  handle_all-Throttled :
      (ms : List Message) (s : Service S F)
      → Throttled settings.rebirths s.subscriber
      → Throttled settings.rebirths (handle_all settings w ms s).subscriber
  unfolding handle_all on_message
  handle_all-Throttled [] s t = t
  handle_all-Throttled (m ∷ ms) s t =
      handle_all-Throttled ms (on_message settings w m.topic m.payload m.clock s)
        (parts-Throttled m.topic m.payload m.clock (topic_parts w.unicode m.topic) s t)

-- Over every sequence of messages, whatever their times, each request for a rebirth is published at
-- least the throttle after every earlier request for the same group, edge node and device.
pub handle_all-IsSpaced :
    {S F : Type 0} (settings : Settings) (w : World S F) (ms : List Message) (s : Service S F)
    (maps : Dict AliasKey (AliasMap F))
    → s.subscriber ≡ open_subscriber maps
    → IsSpaced settings.rebirths.rebirth_throttle_seconds
        (handle_all settings w ms s).subscriber.published
handle_all-IsSpaced settings w ms s maps e =
    let opened : Throttled settings.rebirths (open_subscriber maps) = record {
      spaced = tt;
      covered = tt;
    } in
    (handle_all-Throttled settings w ms s
      (subst (Throttled settings.rebirths) (sym e) opened)).spaced

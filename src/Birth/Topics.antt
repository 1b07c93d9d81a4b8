-- ===== src/Birth/Topics.antt =====
-- The parts of a topic (`_topic_parts`) and the keys that they give.
use text.Mathlib.Text.{◌==◌ as str_eq}
use dbirth.Base.{String, Option, none, some, List, [], ◌∷◌, if◌then◌else◌}
use dbirth.Base.Strings.{Unicode, split}
use dbirth.Base.Strings.Trim.{is_char, starts}
use dbirth.Birth.AliasCache.{AliasKey}

-- a topic of Sparkplug, in parts
pub record TopicParts : Type 0 where
  pub group : String
  pub msg_type : String
  pub edge_node : String
  pub device : Option String

abbrev first_of : List String → Option String
first_of [] = none
first_of (w ∷ ws) = some w

abbrev parts_of : Unicode → List String → Option TopicParts
parts_of u (version ∷ group ∷ msg_type ∷ edge_node ∷ rest) =
    if str_eq (u.lower version) "spbv1.0"
    then some (record {
      group = group;
      msg_type = u.upper msg_type;
      edge_node = edge_node;
      device = first_of rest;
    })
    else none
parts_of u _ = none

-- `_topic_parts`
unfoldable pub topic_parts : Unicode → String → Option TopicParts
unfolding split
topic_parts u topic = parts_of u (split b'/' topic)

-- `_key`
abbrev pub key_of : TopicParts → Option String → AliasKey
key_of parts device = record { group = parts.group; edge_node = parts.edge_node; device = device }

-- `device_for_alias`
abbrev pub device_for_alias : TopicParts → Option String
device_for_alias parts = if starts (is_char b'D') parts.msg_type then parts.device else none

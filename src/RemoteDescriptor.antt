-- ===== src/RemoteDescriptor.antt =====
-- cpp/mrc/src/internal/remote_descriptor/manager.cpp and storage.cpp: the objects that a partition keeps
-- for others, each with the tokens that are still out. An object's id is its address. What is encoded
-- in an object is left out, and a message to another instance is returned.
pub mod Tokens
use mrc.Prelude.{
  ℕ, ◌-◌, Bool, true, false, Option, none, some, List, [], ◌∷◌, leb, ◌==◌, if◌then◌else◌, length,
}
use mrc.Prelude.Maps.{Map, lookup, contains, assign, erase}

abbrev pub int32_max : ℕ
int32_max = 2_147_483_647

-- The protobuf message of a descriptor.
pub record Descriptor : Type 0 where
  pub instance_id : ℕ
  pub object_id : ℕ
  pub tokens : ℕ

-- The message that asks another instance to decrement.
pub record DecrementMessage : Type 0 where
  pub object_id : ℕ
  pub tokens : ℕ

-- The stored objects by id, as the tokens of their Storage.
pub record Manager : Type 0 where
  pub instance_id : ℕ
  pub stored_objects : Map ℕ

pub create : ℕ → Manager
create instance_id = record { instance_id = instance_id; stored_objects = [] }

-- `none` is a failed CHECK.
unfoldable pub storage_decrement : ℕ → ℕ → Option ℕ
storage_decrement decrement_count tokens =
    if leb decrement_count tokens then some (tokens - decrement_count) else none

unfoldable pub register_encoded_object : ℕ → Manager → Option (Descriptor × Manager)
unfolding contains assign
register_encoded_object object_id m =
    if contains object_id m.stored_objects
    then none
    else some (
      record { instance_id = m.instance_id; object_id = object_id; tokens = int32_max },
      record m { stored_objects = assign object_id int32_max m.stored_objects },
    )

-- What is stored after a decrement has left so many tokens.
abbrev pub keep_or_destroy : ℕ → ℕ → Map ℕ → Map ℕ
keep_or_destroy object_id remaining m =
    if remaining == 0 then erase object_id m else assign object_id remaining m

unfoldable pub decrement_tokens : ℕ → ℕ → Manager → Option Manager
unfolding lookup storage_decrement erase assign
decrement_tokens object_id token_count m = elim (lookup object_id m.stored_objects) [
  | none ↦ none
  | some tokens ↦ elim (storage_decrement token_count tokens) [
    | none ↦ none
    | some remaining ↦
        some (record m { stored_objects = keep_or_destroy object_id remaining m.stored_objects })
  ]
]

-- The message to send, with the instance that it goes to, and the manager afterwards.
unfoldable pub release_handle :
    Descriptor → Manager → Option (Option (ℕ × DecrementMessage) × Manager)
unfolding decrement_tokens
release_handle rd m =
    if rd.instance_id == m.instance_id
    then elim (decrement_tokens rd.object_id rd.tokens m) [
      | none ↦ none
      | some m' ↦ some (none, m')
    ]
    else some (some (rd.instance_id, record { object_id = rd.object_id; tokens = rd.tokens }), m)

-- The handler of the messages that arrive.
unfoldable pub on_decrement : DecrementMessage → Manager → Option Manager
unfolding decrement_tokens
on_decrement msg m = decrement_tokens msg.object_id msg.tokens m

unfoldable pub handle_each : List DecrementMessage → Manager → Option Manager
unfolding on_decrement
handle_each [] m = some m
handle_each (d ∷ ds) m = elim (on_decrement d m) [ none ↦ none | some m' ↦ handle_each ds m' ]

pub size : Manager → ℕ
size m = length m.stored_objects

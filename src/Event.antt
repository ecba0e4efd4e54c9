-- ===== src/Event.antt =====
-- pkg/event/handler.go: which messages of the event stream a user receives, and as what events.
pub mod Filter
pub mod Resume
use Prim.Native.Char.{Char, code}
use im_manager.Base.{
  ℕ, ◌+◌, ◌-◌, ◌%◌, ◌^◌, String, ◌<>◌, Bool, true, false, ◌&&◌, Option, none, some, List, [], ◌∷◌,
  ◌==◌, string_eq, nat_eq, leb, ltb, if◌then◌else◌,
}
use im_manager.Base.Dict.{Dict, get, put, has}
use im_manager.Base.Decimal.{decimal, parse_uint, parse_int, format_int}
use im_manager.Errdef.{Error, Result, ok, err, errorf, new_bad_request, new_forbidden, ◌>>=◌}
use im_manager.Model.{Group, User}

-- A value of an application property: a text, or of another type.
pub data Property : Type 0 where
  text : String → Property
  other : Property

abbrev pub Properties : Type 0
Properties = Dict Property

-- The parts of an AMQP message that are read.
pub record Message : Type 0 where
  pub data' : List String
  pub application_properties : Properties

-- map[string]struct{}
abbrev pub GroupSet : Type 0
GroupSet = Dict (Unit {0})

insert_groups : List Group → GroupSet → GroupSet
insert_groups [] m = m
insert_groups (group ∷ groups) m = insert_groups groups (put m group.name tt)

unfoldable pub map_user_groups : User → GroupSet
unfolding insert_groups
map_user_groups user = insert_groups user.groups []

unfoldable pub owned_by : ℕ → Property → Result Bool
owned_by user_id other =
    err (errorf "failed to type assert RabbitMQ message application property \"owner\" to a string")
owned_by user_id (text owner) = elim (parse_uint owner) [
  | none ↦
      err (errorf "failed to parse RabbitMQ message application property \"owner\" to a uint: %v")
  | some id ↦ ok (id == user_id)
]

unfoldable pub is_user_message_owner : ℕ → Properties → Result Bool
is_user_message_owner user_id properties = elim (get properties "owner") [
  | none ↦ ok true
  | some owner ↦ owned_by user_id owner
]

unfoldable pub grouped_in : GroupSet → Property → Result Bool
grouped_in user_groups other =
    err (errorf "failed to type assert RabbitMQ message application property \"group\" to a string")
grouped_in user_groups (text group) = ok (has user_groups group)

unfoldable pub is_in_message_group : GroupSet → Properties → Result Bool
is_in_message_group user_groups properties = elim (get properties "group") [
  | none ↦ err (errorf "RabbitMQ message is missing application property \"group\"")
  | some group ↦ grouped_in user_groups group
]

-- `return false` after an error.
unfoldable pub both_hold : Result Bool → Result Bool → Bool
both_hold (err e) in_group = false
both_hold (ok is_owner) (err e) = false
both_hold (ok is_owner) (ok in_group) = is_owner && in_group

unfoldable pub post_filter : ℕ → GroupSet → Message → Bool
post_filter user_id user_groups message =
    both_hold (is_user_message_owner user_id message.application_properties)
      (is_in_message_group user_groups message.application_properties)

-- The offset from which a client streams: an `int64`, modulo 2 ^ 64.
pub data OffsetSpecification : Type 0 where
  next_message : OffsetSpecification
  offset : ℕ → OffsetSpecification

unfoldable pub compute_offset_spec : String → Result OffsetSpecification
compute_offset_spec last_event_id =
    if last_event_id == "" then ok next_message else elim (parse_int last_event_id) [
      | none ↦ err (new_bad_request "invalid header %q value: %v")
      | some last ↦ ok (offset ((last + 1) % 2 ^ 64))
    ]

-- `base + rand.UintN(maxJitter)`
unfoldable pub compute_retry : (ℕ → ℕ) → ℕ
compute_retry uint_n = 3000 + uint_n 1001

-- sse.Event
pub record SseEvent : Type 0 where
  pub id : String
  pub data' : String
  pub retry : ℕ
  pub event : String

unfoldable pub kind_of : Properties → Result String
kind_of properties = elim (get properties "kind") [
  | none ↦ err (errorf "RabbitMQ message is missing application property \"kind\"")
  | some other ↦
      err (errorf "type assertion of RabbitMQ message application property %q failed, value=%v")
  | some (text kind) ↦ ok kind
]

unfoldable pub map_message_to_event : ℕ → ℕ → Message → Result SseEvent
map_message_to_event retry at message = elim message.data' [
  | [] ↦ err (errorf "received no data")
  | data' ∷ _ ↦ do
    kind ← kind_of message.application_properties
    ok (record { id = format_int at; data' = data'; retry = retry; event = kind })
]

-- The start of `StreamEvents`: the groups of the user, and the offset.
unfoldable pub start_stream : User → String → Result (GroupSet × OffsetSpecification)
start_stream user last_event_id = elim (map_user_groups user) [
  | [] ↦ err (
      new_forbidden
        "you cannot stream events as you are not part of a group. Ask an administrator for help.")
  | g ∷ groups ↦ do at ← compute_offset_spec last_event_id; ok (g ∷ groups, at)
]

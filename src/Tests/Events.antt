-- ===== src/Tests/Events.antt =====
-- Messages of the event stream.
use im_manager.Base.{◌≡◌, refl, ◌↔◌, string_eq, true, [], ◌∷◌, arith}
use im_manager.Base.Dict.{get}
use im_manager.Base.Decimal.{format_int}
use im_manager.Errdef.{ok}
use im_manager.Event.{
  text, Message, SseEvent, post_filter, map_user_groups, map_message_to_event, kind_of,
  compute_offset_spec, offset,
}
use im_manager.Event.Filter.{IsFor, IsIn, post_filter_iff}
use im_manager.Event.Resume.{compute_offset_spec-map_message_to_event}
use im_manager.Tests.Samples.{member}

abbrev updated : Message
updated = record {
  data' = "{}" ∷ [];
  application_properties =
      ("group", text "whoami") ∷ ("owner", text "5") ∷ ("kind", text "instance-update") ∷ [];
}

post_filter_iff_example : (post_filter member.id (map_user_groups member) updated ≡ true) ↔ (
    IsFor member.id (get updated.application_properties "owner")
    × IsIn member (get updated.application_properties "group"))
post_filter_iff_example = post_filter_iff member updated

abbrev sent : SseEvent
sent = record { id = "41"; data' = "{}"; retry = 3500; event = "instance-update" }

mapped : map_message_to_event 3500 41 updated ≡ ok sent
unfolding map_message_to_event kind_of get string_eq format_int
mapped = refl

compute_offset_spec-map_message_to_event_example : compute_offset_spec "41" ≡ ok (offset 42)
compute_offset_spec-map_message_to_event_example =
    compute_offset_spec-map_message_to_event 3500 41 updated sent (omega arith) mapped

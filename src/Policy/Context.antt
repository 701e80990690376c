-- ===== src/Policy/Context.antt =====
-- ContextResolverService.Resolve (backend/internal/service/context_resolver_service.go).
use bonipam.Common.{String, Option, none, some, [], ◌∷◌, ◌==◌, if◌then◌else◌}
use bonipam.Common.Int.{ℤ}
use bonipam.Go.Map.{Map, put}
use bonipam.Go.Text.{trim_space, to_lower}
use bonipam.Go.Time.{Time}
use bonipam.Policy.Value.{Value, num, str}
use bonipam.Policy.Types.{PolicyEvaluationRequest, Outside}

-- The loop that copies the attributes of the request.
unfoldable pub copy_attributes : Map Value → Map Value → Map Value
copy_attributes resolved [] = resolved
copy_attributes resolved ((k, v) ∷ rest) = copy_attributes (put resolved k v) rest

-- An entry that is written only if the text is not empty.
unfoldable pub put_text : Map Value → String → String → Map Value
put_text resolved key text = if text == "" then resolved else put resolved key (str text)

unfoldable pub put_score : Map Value → Option ℤ → Map Value
put_score resolved none = resolved
put_score resolved (some score) = put resolved "risk_score" (num score)

-- The time of the request, where it gives one that can be parsed, and else the time of the call.
unfoldable pub request_time : Outside → PolicyEvaluationRequest → Time → Time
request_time out req now =
    let text = trim_space req.request_time in
    if text == "" then now else elim (out.parse_rfc3339 text) [ none ↦ now | some parsed ↦ parsed ]

unfoldable pub resolve : Outside → PolicyEvaluationRequest → Time → Map Value
resolve out req now =
    let attributes = copy_attributes [] req.attributes in
    let with_ip = put_text attributes "source_ip" (trim_space req.source_ip) in
    let with_device = put_text with_ip "device_id" (trim_space req.device_id) in
    let trust = trim_space req.device_trust in
    let with_trust =
      if trust == "" then with_device else put with_device "device_trust" (str (to_lower trust)) in
    let with_score = put_score with_trust req.risk_score in
    let time = request_time out req now in
    put
      (put (put with_score "time" (str (out.format_clock time))) "timestamp"
        (str (out.format_rfc3339 time)))
      "day_of_week" (str (to_lower (out.weekday time)))

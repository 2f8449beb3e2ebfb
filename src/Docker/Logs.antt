-- ===== src/Docker/Logs.antt =====
-- What crates/controller/src/docker.rs reads of the logs of frpc. A log is the list of its code points.
use Prim.Native.String
use webtop_manager.Prelude.{
  ℕ, zero, suc, ◌+◌, String, Bool, true, not, ◌&&◌, ◌||◌, ◌==◌, Option, none, some, List, [], ◌∷◌,
  map, mem, length, leb, if◌then◌else◌,
}
use webtop_manager.Prelude.Text.{codes, codes_contain}
use webtop_manager.Prelude.Results.{Result, ok, err}
use webtop_manager.Contracts.Settings.{FrpcTestCode}
use webtop_manager.Controller.Docker.{Call}
use webtop_manager.Controller.Proxies.{Proxy}

-- `to_ascii_lowercase`.
abbrev pub to_ascii_lowercase : ℕ → ℕ
to_ascii_lowercase c = if leb b'A' c && leb c b'Z' then c + 32 else c

abbrev pub lowercase : List ℕ → List ℕ
lowercase cs = map to_ascii_lowercase cs

-- `text.lines()`: the parts between the line feeds, without a carriage return at their end; a last
-- empty part is no line.
abbrev split_lines : List ℕ → List ℕ × List (List ℕ)
split_lines [] = ([], [])
split_lines (c ∷ cs) =
    let (part, parts) = split_lines cs in if c == 10 then ([], part ∷ parts) else (c ∷ part, parts)

abbrev without_return : List ℕ → List ℕ
without_return [] = []
without_return (c ∷ []) = if c == 13 then [] else c ∷ []
without_return (c ∷ d ∷ cs) = c ∷ without_return (d ∷ cs)

abbrev keep_last : List ℕ → List (List ℕ)
keep_last [] = []
keep_last cs = cs ∷ []

abbrev ended_lines : List ℕ → List (List ℕ) → List (List ℕ)
ended_lines part [] = keep_last part
ended_lines part (next ∷ parts) = without_return part ∷ ended_lines next parts

unfoldable pub lines : List ℕ → List (List ℕ)
lines cs = let (part, parts) = split_lines cs in ended_lines part parts

abbrev says : List ℕ → String → Bool
says cs text = codes_contain cs (codes text)

abbrev pub reports_conflict : List ℕ → Bool
reports_conflict lower =
    says lower "port already used"
    || says lower "port is already used"
    || says lower "remote port is used"
    || (says lower "proxy name" && says lower "already in use")

abbrev pub reports_success : List ℕ → Bool
reports_success lower =
    says lower "start proxy success"
    || says lower "proxy added"
    || (says lower "start proxy" && says lower "success")

-- `insert` into a set.
abbrev pub insert_id : ℕ → List ℕ → List ℕ
insert_id id ids = if mem id ids then ids else id ∷ ids

-- The two sets that the loops fill.
pub record Registrations : Type 0 where
  pub conflicts : List ℕ
  pub settled : List ℕ

-- The proxy of this id is settled, and lost its port if the line reports a conflict.
abbrev pub registered : Bool → ℕ → Registrations → Registrations
registered is_conflict id r = record {
  conflicts = if is_conflict then insert_id id r.conflicts else r.conflicts;
  settled = insert_id id r.settled;
}

-- `id_text` is the text of an id.
module _ (id_text : ℕ → String) where
  abbrev pub names_proxy : List ℕ → Proxy → Bool
  names_proxy line proxy = says line (String.◌++◌ "webtop-" (id_text proxy.resource_id))

  -- The loop over the proxies, for a line that reports a conflict or a success.
  unfoldable pub register_line : Bool → List ℕ → List Proxy → Registrations → Registrations
  register_line is_conflict line [] r = r
  register_line is_conflict line (proxy ∷ proxies) r =
      register_line is_conflict line proxies
        (if names_proxy line proxy then registered is_conflict proxy.resource_id r else r)

  unfoldable pub register_lines : List Proxy → List (List ℕ) → Registrations → Registrations
  unfolding register_line
  register_lines proxies [] r = r
  register_lines proxies (line ∷ rest) r =
      let lower = lowercase line in
      let is_conflict = reports_conflict lower in
      register_lines proxies rest (
        if not is_conflict && not (reports_success lower)
        then r
        else register_line is_conflict line proxies r)

  unfoldable pub classify_proxy_registrations : List ℕ → List Proxy → Registrations
  unfolding register_lines lines
  classify_proxy_registrations logs proxies =
      register_lines proxies (lines logs) (record { conflicts = []; settled = [] })

  abbrev pub has_answer : Registrations → List Proxy → Bool
  has_answer r proxies = elim r.conflicts [ _ ∷ _ ↦ true | [] ↦ length r.settled == length proxies ]

  -- What follows a reading of the log in the loop; `later` is what the rounds after it answer.
  abbrev pub after_read :
      {D : Type 0}
      → List Proxy
      → Result (Unit {0}) (List ℕ)
      → D
      → Result (Unit {0}) (List ℕ) × D
      → Result (Unit {0}) (List ℕ) × D
  after_read proxies (err e) d later = (err e, d)
  after_read proxies (ok logs) d later =
      let r = classify_proxy_registrations logs proxies in
      if has_answer r proxies then (ok r.conflicts, d) else later

  -- The loop of `frpc_conflicting_proxy_ids`: so many rounds are left. `recent_logs` reads the log, after
  -- the pause of the round before.
  unfoldable pub poll_registrations :
      {D : Type 0} → Call D (List ℕ) → List Proxy → ℕ → Call D (List ℕ)
  unfolding classify_proxy_registrations
  poll_registrations recent_logs proxies zero d = (ok [], d)
  poll_registrations recent_logs proxies (suc rounds) d =
      let later = poll_registrations recent_logs proxies rounds (recent_logs d).1 in
      after_read proxies (recent_logs d).0 (recent_logs d).1 later

  unfoldable pub frpc_conflicting_proxy_ids :
      {D : Type 0} → Call D (List ℕ) → List Proxy → Call D (List ℕ)
  unfolding poll_registrations
  frpc_conflicting_proxy_ids recent_logs [] d = (ok [], d)
  frpc_conflicting_proxy_ids recent_logs (proxy ∷ proxies) d =
      poll_registrations recent_logs (proxy ∷ proxies) 20 d

unfoldable pub classify_frpc_failure : List ℕ → Option FrpcTestCode
classify_frpc_failure text =
    let logs = lowercase text in
    if says logs "token" && (says logs "match" || says logs "auth")
    then some FrpcTestCode.authentication_failed
    else if says logs "no such host" || says logs "server misbehaving"
    then some FrpcTestCode.dns_failed
    else if says logs "connection refused"
    then some FrpcTestCode.connection_refused
    else if says logs "timed out" || says logs "i/o timeout"
    then some FrpcTestCode.timed_out
    else none

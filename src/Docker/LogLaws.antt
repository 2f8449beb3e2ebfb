-- ===== src/Docker/LogLaws.antt =====
-- What `classify_proxy_registrations` of crates/controller/src/docker.rs finds, described without the
-- sets that its loops fill.
use webtop_manager.Prelude.{
  ℕ, zero, suc, String, Bool, true, false, not, ◌&&◌, ◌||◌, ◌==◌, ◌≡◌, refl, sym, ap, ◌∙◌, List, [],
  ◌∷◌, any, mem, map, arith, if◌then◌else◌,
}
use webtop_manager.Controller.Docker.{Call}
use webtop_manager.Prelude.Results.{Result, ok, err}
use webtop_manager.Controller.Proxies.{Proxy}
use webtop_manager.Docker.Logs.{
  Registrations, registered, insert_id, names_proxy, after_read, has_answer, lines, lowercase,
  reports_conflict, reports_success, register_line, poll_registrations, frpc_conflicting_proxy_ids,
  register_lines, classify_proxy_registrations,
}

insert_id-mem : (x id : ℕ) (ids : List ℕ) → mem x (insert_id id ids) ≡ ((id == x) || mem x ids)
insert_id-mem x id ids = ground arith

or_shift : (c a b m : Bool) → ((c && b) || ((c && a) || m)) ≡ ((c && (a || b)) || m)
or_shift true true true m = refl
or_shift true true false m = refl
or_shift true false b m = refl
or_shift false a b m = refl

abbrev resource_id_of : Proxy → ℕ
resource_id_of p = p.resource_id

or_false : (a : Bool) → (a || false) ≡ a
or_false true = refl
or_false false = refl

or_move : (a b m : Bool) → (b || (a || m)) ≡ ((a || b) || m)
or_move a b m = or_shift true a b m

registered-conflicts :
    (named is_conflict : Bool) (x id : ℕ) (r : Registrations)
    → mem x (if named then registered is_conflict id r else r).conflicts
      ≡ ((is_conflict && ((id == x) && named)) || mem x r.conflicts)
registered-conflicts true true x id r = grind (arith, insert_id-mem x id r.conflicts)
registered-conflicts true false x id r = refl
registered-conflicts false c x id r = ground arith

registered-settled :
    (named is_conflict : Bool) (x id : ℕ) (r : Registrations)
    → mem x (if named then registered is_conflict id r else r).settled
      ≡ (((id == x) && named) || mem x r.settled)
registered-settled true c x id r = grind (arith, insert_id-mem x id r.settled)
registered-settled false c x id r = ground arith

module _ (id_text : ℕ → String) where
  -- The line names a proxy of this id.
  abbrev pub names_id : ℕ → List Proxy → List ℕ → Bool
  names_id id proxies line = any (λ p. (p.resource_id == id) && names_proxy id_text line p) proxies

  -- The line says that the proxy of this id lost its port.
  abbrev pub reports_lost : ℕ → List Proxy → List ℕ → Bool
  reports_lost id proxies line = reports_conflict (lowercase line) && names_id id proxies line

  -- The line says that the registration of this id has ended, either way.
  abbrev pub reports_settled : ℕ → List Proxy → List ℕ → Bool
  reports_settled id proxies line =
      (reports_conflict (lowercase line) || reports_success (lowercase line))
      && names_id id proxies line

  register_line-conflicts :
      (is_conflict : Bool) (id : ℕ) (line : List ℕ) (proxies : List Proxy) (r : Registrations)
      → mem id (register_line id_text is_conflict line proxies r).conflicts
        ≡ ((is_conflict && names_id id proxies line) || mem id r.conflicts)
  unfolding register_line
  register_line-conflicts is_conflict id line [] r = ground arith
  register_line-conflicts is_conflict id line (p ∷ ps) r =
      let named = names_proxy id_text line p in
      let next : Registrations = if named then registered is_conflict p.resource_id r else r in
      let step = registered-conflicts named is_conflict id p.resource_id r in
      let rest = names_id id ps line in
      register_line-conflicts is_conflict id line ps next
      ∙ (ap (λ m. (is_conflict && rest) || m) step
          ∙ or_shift is_conflict ((p.resource_id == id) && named) rest (mem id r.conflicts))

  register_line-settled :
      (is_conflict : Bool) (id : ℕ) (line : List ℕ) (proxies : List Proxy) (r : Registrations)
      → mem id (register_line id_text is_conflict line proxies r).settled
        ≡ (names_id id proxies line || mem id r.settled)
  unfolding register_line
  register_line-settled is_conflict id line [] r = refl
  register_line-settled is_conflict id line (p ∷ ps) r =
      let named = names_proxy id_text line p in
      let next : Registrations = if named then registered is_conflict p.resource_id r else r in
      let step = registered-settled named is_conflict id p.resource_id r in
      let rest = names_id id ps line in
      register_line-settled is_conflict id line ps next
      ∙ (ap (λ m. rest || m) step
          ∙ or_move ((p.resource_id == id) && named) rest (mem id r.settled))

  abbrev register_one : Bool → Bool → List ℕ → List Proxy → Registrations → Registrations
  register_one is_conflict is_success line proxies r =
      if not is_conflict && not is_success
      then r
      else register_line id_text is_conflict line proxies r

  register_one-conflicts :
      (is_conflict is_success : Bool) (id : ℕ) (line : List ℕ) (proxies : List Proxy)
      (r : Registrations)
      → mem id (register_one is_conflict is_success line proxies r).conflicts
        ≡ ((is_conflict && names_id id proxies line) || mem id r.conflicts)
  register_one-conflicts true s id line proxies r = register_line-conflicts true id line proxies r
  register_one-conflicts false true id line proxies r =
      register_line-conflicts false id line proxies r
  register_one-conflicts false false id line proxies r = refl

  register_one-settled :
      (is_conflict is_success : Bool) (id : ℕ) (line : List ℕ) (proxies : List Proxy)
      (r : Registrations)
      → mem id (register_one is_conflict is_success line proxies r).settled
        ≡ (((is_conflict || is_success) && names_id id proxies line) || mem id r.settled)
  register_one-settled true s id line proxies r = register_line-settled true id line proxies r
  register_one-settled false true id line proxies r = register_line-settled false id line proxies r
  register_one-settled false false id line proxies r = refl

  register_lines-conflicts :
      (id : ℕ) (proxies : List Proxy) (ls : List (List ℕ)) (r : Registrations)
      → mem id (register_lines id_text proxies ls r).conflicts
        ≡ (any (reports_lost id proxies) ls || mem id r.conflicts)
  unfolding register_lines
  register_lines-conflicts id proxies [] r = refl
  register_lines-conflicts id proxies (l ∷ ls) r =
      let c = reports_conflict (lowercase l) in
      let s = reports_success (lowercase l) in
      register_lines-conflicts id proxies ls (register_one c s l proxies r)
      ∙ (ap (λ m. any (reports_lost id proxies) ls || m) (register_one-conflicts c s id l proxies r)
          ∙ or_move (reports_lost id proxies l) (any (reports_lost id proxies) ls)
              (mem id r.conflicts))

  register_lines-settled :
      (id : ℕ) (proxies : List Proxy) (ls : List (List ℕ)) (r : Registrations)
      → mem id (register_lines id_text proxies ls r).settled
        ≡ (any (reports_settled id proxies) ls || mem id r.settled)
  unfolding register_lines
  register_lines-settled id proxies [] r = refl
  register_lines-settled id proxies (l ∷ ls) r =
      let c = reports_conflict (lowercase l) in
      let s = reports_success (lowercase l) in
      register_lines-settled id proxies ls (register_one c s l proxies r)
      ∙ (ap (λ m. any (reports_settled id proxies) ls || m)
            (register_one-settled c s id l proxies r)
          ∙ or_move (reports_settled id proxies l) (any (reports_settled id proxies) ls)
              (mem id r.settled))

  -- For any text that stands for an id, any log and any proxies: an id is in the set of conflicts exactly
  -- if some line of the log that reports a conflict names a proxy of this id, and in the set of settled
  -- ids exactly if some line that reports a conflict or a success does.
  pub classify_proxy_registrations-reports :
      (logs : List ℕ) (proxies : List Proxy) (id : ℕ)
      → (mem id (classify_proxy_registrations id_text logs proxies).conflicts
          ≡ any (reports_lost id proxies) (lines logs))
        × (mem id (classify_proxy_registrations id_text logs proxies).settled
            ≡ any (reports_settled id proxies) (lines logs))
  unfolding classify_proxy_registrations
  classify_proxy_registrations-reports logs proxies id =
      let start : Registrations = record { conflicts = []; settled = [] } in
      (
        register_lines-conflicts id proxies (lines logs) start ∙ or_false _,
        register_lines-settled id proxies (lines logs) start ∙ or_false _,
      )

  names_id-mem :
      (id : ℕ) (proxies : List Proxy) (line : List ℕ)
      → names_id id proxies line ≡ true
      → mem id (map resource_id_of proxies) ≡ true
  names_id-mem id [] line h = h
  names_id-mem id (p ∷ ps) line h = ground (arith, h, names_id-mem id ps line)

  lost-mem :
      (id : ℕ) (proxies : List Proxy) (ls : List (List ℕ))
      → any (reports_lost id proxies) ls ≡ true
      → mem id (map resource_id_of proxies) ≡ true
  lost-mem id proxies [] h = cc
  lost-mem id proxies (l ∷ ls) h =
      ground (arith, h, names_id-mem id proxies l, lost-mem id proxies ls)

  module _ {D : Type 0} (recent_logs : Call D (List ℕ)) (proxies : List Proxy) where
    -- A log that was read has a line that says that this id lost its port.
    abbrev pub WasReported : ℕ → Type 0
    WasReported id =
        (d : D) × (logs : List ℕ) × ((recent_logs d).0 ≡ ok logs)
        × (any (reports_lost id proxies) (lines logs) ≡ true)

    -- Each id is the id of one of the proxies and was reported; an error is one that reading gave.
    abbrev pub IsAnswer : Result (Unit {0}) (List ℕ) → Type 0
    IsAnswer (ok ids) =
        (id : ℕ) → mem id ids ≡ true → (mem id (map resource_id_of proxies) ≡ true) × WasReported id
    IsAnswer (err e) = (d : D) × ((recent_logs d).0 ≡ err e)

    conflicts-IsAnswer :
        (d : D) (logs : List ℕ)
        → (recent_logs d).0 ≡ ok logs
        → IsAnswer (ok (classify_proxy_registrations id_text logs proxies).conflicts)
    conflicts-IsAnswer d logs read id h =
        let reported : any (reports_lost id proxies) (lines logs) ≡ true =
          sym (classify_proxy_registrations-reports logs proxies id).0 ∙ h in
        (lost-mem id proxies (lines logs) reported, (d, logs, read, reported))

    after_read-IsAnswer :
        (result : Result (Unit {0}) (List ℕ)) (d e : D) (later : Result (Unit {0}) (List ℕ) × D)
        → (recent_logs d).0 ≡ result
        → IsAnswer later.0
        → IsAnswer (after_read id_text proxies result e later).0
    after_read-IsAnswer (err x) d e later read rest = (d, read)
    after_read-IsAnswer (ok logs) d e later read rest =
        let r = classify_proxy_registrations id_text logs proxies in
        let found : Result (Unit {0}) (List ℕ) × D = (ok r.conflicts, e) in
        elim (has_answer id_text r proxies) as (λ b. IsAnswer (if b then found else later).0) [
          | true ↦ conflicts-IsAnswer d logs read
          | false ↦ rest
        ]

    poll_registrations-IsAnswer :
        (rounds : ℕ) (d : D) → IsAnswer (poll_registrations id_text recent_logs proxies rounds d).0
    unfolding poll_registrations
    poll_registrations-IsAnswer zero d = λ id h. cc
    poll_registrations-IsAnswer (suc rounds) d =
        let later = poll_registrations id_text recent_logs proxies rounds (recent_logs d).1 in
        after_read-IsAnswer (recent_logs d).0 d (recent_logs d).1 later refl
          (poll_registrations-IsAnswer rounds (recent_logs d).1)

  -- For any text that stands for an id, any reading of the log and any proxies: each id that
  -- `frpc_conflicting_proxy_ids` answers with is the id of one of the proxies, and a log that was read
  -- has a line that reports a conflict and names a proxy of this id. An error is one that a reading gave.
  pub frpc_conflicting_proxy_ids-IsAnswer :
      {D : Type 0} (recent_logs : Call D (List ℕ)) (proxies : List Proxy) (d : D)
      → IsAnswer recent_logs proxies (frpc_conflicting_proxy_ids id_text recent_logs proxies d).0
  unfolding frpc_conflicting_proxy_ids
  frpc_conflicting_proxy_ids-IsAnswer recent_logs [] d = λ id h. cc
  frpc_conflicting_proxy_ids-IsAnswer recent_logs (p ∷ ps) d =
      poll_registrations-IsAnswer recent_logs (p ∷ ps) 20 d

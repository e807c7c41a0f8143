-- ===== src/Nathole/Decisions/Signed.antt =====
-- Which sessions a controller has, after any history.
use frpcv.Prelude.{
  Bool-cases, Option-cases, Text, text_beq_iff, text_eq, nat_eq, ◌==◌, In, Map, is_some, put, del,
  ℕ, ◌≡◌, refl, sym, ap, ◌∙◌, subst, ◌⊎◌, inl, inr, Bool, Option, none, some, List, [], ◌∷◌,
}
use frpcv.Nathole.Classify.{
  NatFeature, ClassifyResult, ok, not_enough_addresses, bad_address, classify_nat_feature,
}
use frpcv.Nathole.Analyzer.{Analyzer, new_analyzer, clean}
use frpcv.Nathole.Sessions.{
  ClientCfg, VisitorMsg, ClientMsg, Session, Controller, new_controller, listen_client,
  close_client, new_session, handle_client, end_session, handle_report, open_session,
}
use frpcv.Nathole.Decisions.{parse_ips, Decision, decide_for, analysis, decide}

-- The clients that have listened, with their proxies.
abbrev pub Past : Type 0
Past = List (Text × ClientCfg)

module _ (split_host_port : Text → Option (Text × Text)) (atoi : Text → Option ℕ)
    (md5_hex : Text → Text) (get_auth_key : Text → ℕ → Text) where
  -- A call of the controller, or a step of `HandleVisitor` between its waits.
  pub data Step (c : Controller) (past : Past) : Controller → Past → Type 0 where
    listens :
        (name sk : Text) (allow_users : List Text) (later : Controller)
        → listen_client c name sk allow_users ≡ some later
        → Step c past later ((name, record { sk = sk; allow_users = allow_users }) ∷ past)
    closes : (name : Text) → Step c past (close_client c name) past
    opens : (sid : Text) (m : VisitorMsg) → Step c past (open_session get_auth_key c sid m).0 past
    joins : (m : ClientMsg) → Step c past (handle_client c m) past
    decides :
        (sid : Text) (now : ℕ) → Step c past (decide split_host_port atoi md5_hex c sid now).0 past
    ends : (sid : Text) → Step c past (end_session c sid) past
    reports :
        (sid : Text) (success : Bool) (now : ℕ) → Step c past (handle_report c sid success now) past
    cleans : (now : ℕ) → Step c past (record c { analyzer = (clean c.analyzer now).1 }) past

  pub data Reach : Controller → Past → Type 0 where
    start :
        (data_reserve_duration : ℕ) → Reach (new_controller (new_analyzer data_reserve_duration)) []
    next :
        {c later : Controller} {past after : Past}
        → Reach c past
        → Step c past later after
        → Reach later after

  -- The visitor of a session has signed with the secret of a client that has listened for its proxy.
  unfoldable pub IsSigned : Past → VisitorMsg → Type 0
  IsSigned past m =
      (cfg : ClientCfg) × In (m.proxy_name, cfg) past
      × (m.sign_key ≡ get_auth_key cfg.sk m.timestamp)

  unfoldable pub Fits : Past → Text → Session → Type 0
  Fits past sid s =
      IsSigned past s.visitor_msg × ((cm : ClientMsg) → s.client_msg ≡ some cm → cm.sid ≡ sid)

  pub record Inv (c : Controller) (past : Past) : Type 0 where
    pub known :
        (name : Text) (cfg : ClientCfg) → c.client_cfgs name ≡ some cfg → In (name, cfg) past
    pub fits : (sid : Text) (s : Session) → c.sessions sid ≡ some s → Fits past sid s

  put-Fits :
      (sessions : Map Text Session) (past : Past) (sid : Text) (s : Session)
      → Fits past sid s
      → ((j : Text) (t : Session) → sessions j ≡ some t → Fits past j t)
      → (j : Text) (t : Session) → put sid s sessions j ≡ some t
      → Fits past j t
  put-Fits sessions past sid s own others j t e = elim (Bool-cases (sid == j)) [
    | inl same ↦
        let put_there : some s ≡ some t = (let z = rw (same) at e in z) in
        let equal : s ≡ t = cc in
        let here : sid ≡ j = (text_beq_iff sid j).0 same in
        subst (λ (x : Text). Fits past x t) here (subst (Fits past sid) equal own)
    | inr other ↦ others j t (let z = rw (other) at e in z)
  ]

  with_session-Inv :
      (c : Controller) (past : Past) (sid : Text) (s : Session) (a : Analyzer)
      → Inv c past
      → Fits past sid s
      → Inv (record c { sessions = put sid s c.sessions; analyzer = a }) past
  with_session-Inv c past sid s a v f = record {
    known = v.known;
    fits = put-Fits c.sessions past sid s f v.fits;
  }

  abbrev sid_of : Option ClientMsg → Text
  sid_of none = []
  sid_of (some m) = m.sid

  -- A decision keeps who the peers of the session are.
  analysis-cases :
      (a : Analyzer) (s : Session) (cm : ClientMsg) (now : ℕ)
      → (analysis split_host_port atoi md5_hex a s cm now ≡ none)
        ⊎ ((c : NatFeature) × (v : NatFeature) × (analysis split_host_port atoi md5_hex a s cm now
              ≡ some (decide_for split_host_port atoi md5_hex a s cm c v now)))
  unfolding analysis
  analysis-cases a s cm now =
      classified
        (classify_nat_feature split_host_port atoi cm.mapped_addrs
          (parse_ips split_host_port atoi md5_hex cm.assisted_addrs))
        (classify_nat_feature split_host_port atoi s.visitor_msg.mapped_addrs
          (parse_ips split_host_port atoi md5_hex s.visitor_msg.assisted_addrs))
    where
      decided : ClassifyResult → ClassifyResult → Option (Decision split_host_port atoi md5_hex)
      decided r q = elim r [
        | not_enough_addresses ↦ none
        | bad_address ↦ none
        | ok c ↦ elim q [
          | not_enough_addresses ↦ none
          | bad_address ↦ none
          | ok v ↦ some (decide_for split_host_port atoi md5_hex a s cm c v now)
        ]
      ]

      classified :
          (r q : ClassifyResult)
          → (decided r q ≡ none)
            ⊎ ((c : NatFeature) × (v : NatFeature) × (decided r q
                  ≡ some (decide_for split_host_port atoi md5_hex a s cm c v now)))
      classified not_enough_addresses q = inl refl
      classified bad_address q = inl refl
      classified (ok c) not_enough_addresses = inl refl
      classified (ok c) bad_address = inl refl
      classified (ok c) (ok v) = inr (c, v, refl)

  decide-Inv :
      (c : Controller) (past : Past) (sid : Text) (now : ℕ)
      → Inv c past
      → Inv (decide split_host_port atoi md5_hex c sid now).0 past
  unfolding decide decide_for Fits IsSigned
  decide-Inv c past sid now v = elim (Option-cases (c.sessions sid)) [
    | inl e ↦ rw (e, decide) v
    | inr (s, e) ↦ elim (Option-cases s.client_msg) [
      | inl f ↦ rw (e, decide, f) v
      | inr (cm, f) ↦ elim (analysis-cases c.analyzer s cm now) [
        | inl g ↦ rw (e, decide, f, g) v
        | inr (cf, vf, g) ↦
            let d = decide_for split_host_port atoi md5_hex c.analyzer s cm cf vf now in
            let (signed, joined) = v.fits sid s e in
            rw (e, decide, f, g)
              (with_session-Inv c past sid d.session d.analyzer v
                (signed, λ dm h. ap sid_of (sym h) ∙ joined cm f))
      ]
    ]
  ]

  open_session-Inv :
      (c : Controller) (past : Past) (sid : Text) (m : VisitorMsg)
      → Inv c past
      → Inv (open_session get_auth_key c sid m).0 past
  unfolding open_session Fits IsSigned
  open_session-Inv c past sid m v = elim (Option-cases (c.client_cfgs m.proxy_name)) [
    | inl e ↦ rw (e, open_session) v
    | inr (cfg, e) ↦ elim (Bool-cases (m.sign_key == get_auth_key cfg.sk m.timestamp)) [
      | inr k ↦ rw (e, open_session, k) v
      | inl k ↦
          rw (e, open_session, k)
            (with_session-Inv c past sid (new_session m) c.analyzer v (
              (
                cfg,
                v.known m.proxy_name cfg e,
                (text_beq_iff m.sign_key (get_auth_key cfg.sk m.timestamp)).0 k,
              ),
              λ cm h. absurd (let no_client : none ≡ some cm = h in cc),
            ))
    ]
  ]

  handle_client-Inv :
      (c : Controller) (past : Past) (m : ClientMsg) → Inv c past → Inv (handle_client c m) past
  unfolding handle_client Fits
  handle_client-Inv c past m v = elim (Option-cases (c.sessions m.sid)) [
    | inl e ↦ rw (e, handle_client) v
    | inr (s, e) ↦
        rw (e, handle_client)
          (with_session-Inv c past m.sid (record s { client_msg = some m }) c.analyzer v
            ((v.fits m.sid s e).0, λ cm h. ap sid_of (sym h)))
  ]

  handle_report-Inv :
      (c : Controller) (past : Past) (sid : Text) (success : Bool) (now : ℕ)
      → Inv c past
      → Inv (handle_report c sid success now) past
  unfolding handle_report
  handle_report-Inv c past sid success now v = elim (Option-cases (c.sessions sid)) [
    | inl e ↦ rw (e, handle_report) v
    | inr (s, e) ↦ elim (Bool-cases success) [
      | inl b ↦ rw (e, handle_report, b) (record { known = v.known; fits = v.fits })
      | inr b ↦ rw (e, handle_report, b) v
    ]
  ]

  del-some : {V : Type 0} (m : Map Text V) (k j : Text) (x : V) → del k m j ≡ some x → m j ≡ some x
  del-some m k j x e = elim (Bool-cases (k == j)) [
    | inl same ↦ absurd (let z = rw (same) at e in cc)
    | inr other ↦ (let z = rw (other) at e in z)
  ]

  put-known :
      (cfgs : Map Text ClientCfg) (past : Past) (name n : Text) (cfg other : ClientCfg)
      → ((k : Text) (x : ClientCfg) → cfgs k ≡ some x → In (k, x) past)
      → put name cfg cfgs n ≡ some other
      → In (n, other) ((name, cfg) ∷ past)
  put-known cfgs past name n cfg other known e = elim (Bool-cases (name == n)) [
    | inl same ↦
        let put_there : some cfg ≡ some other = (let z = rw (same) at e in z) in
        let here : name ≡ n = (text_beq_iff name n).0 same in
        let equal : cfg ≡ other = cc in
        inl (ap (λ (k : Text). (k, cfg)) here ∙ ap (λ (x : ClientCfg). (n, x)) equal)
    | inr apart ↦ inr (known n other (let z = rw (apart) at e in z))
  ]

  listen_client-Inv :
      (c : Controller) (past : Past) (name sk : Text) (allow_users : List Text) (later : Controller)
      → Inv c past
      → listen_client c name sk allow_users ≡ some later
      → Inv later ((name, record { sk = sk; allow_users = allow_users }) ∷ past)
  unfolding Fits IsSigned listen_client
  listen_client-Inv c past name sk allow_users later v e =
      elim (Bool-cases (is_some (c.client_cfgs name))) [
        | inl repeated ↦ absurd (
            let refused : none ≡ some later = (let z = rw (repeated, listen_client) at e in z) in
            cc)
        | inr free ↦
            let cfg : ClientCfg = record { sk = sk; allow_users = allow_users } in
            let listening : Controller = record c { client_cfgs = put name cfg c.client_cfgs } in
            let taken : some listening ≡ some later =
              (let z = rw (free, listen_client) at e in z) in
            let equal : listening ≡ later = cc in
            subst (λ (d : Controller). Inv d ((name, cfg) ∷ past)) equal
              (record {
                known = λ n other f. put-known c.client_cfgs past name n cfg other v.known f;
                fits = λ sid s f.
                    (let ((own, there, key), joined) = v.fits sid s f in
                      ((own, inr there, key), joined));
              })
      ]

  Step-Inv :
      {c later : Controller} {past after : Past}
      → Inv c past
      → Step c past later after
      → Inv later after
  unfolding Fits IsSigned close_client end_session
  Step-Inv {c} {past = past} v (listens name sk allow_users later e) =
      listen_client-Inv c past name sk allow_users later v e
  Step-Inv {c} v (closes name) = record {
    known = λ n cfg e. v.known n cfg (del-some c.client_cfgs name n cfg e);
    fits = v.fits;
  }
  Step-Inv {c} {past = past} v (opens sid m) = open_session-Inv c past sid m v
  Step-Inv {c} {past = past} v (joins m) = handle_client-Inv c past m v
  Step-Inv {c} {past = past} v (decides sid now) = decide-Inv c past sid now v
  Step-Inv {c} v (ends sid) = record {
    known = v.known;
    fits = λ j s e. v.fits j s (del-some c.sessions sid j s e);
  }
  Step-Inv {c} {past = past} v (reports sid success now) =
      handle_report-Inv c past sid success now v
  Step-Inv v (cleans now) = record { known = v.known; fits = v.fits }

  Reach-Inv_from : {c : Controller} {past : Past} → Reach c past → Inv c past
  Reach-Inv_from (start d) = record {
    known = λ name cfg e. absurd (let missing : none ≡ some cfg = e in cc);
    fits = λ sid s e. absurd (let missing : none ≡ some s = e in cc);
  }
  Reach-Inv_from (next r s) = Step-Inv (Reach-Inv_from r) s

  -- After any history of the controller's calls: the visitor of each session has signed its message with the
  -- secret of a client that has listened for the visitor's proxy, and the message of a client in a session is
  -- one for that session.
  pub session-IsSigned :
      {c : Controller} {past : Past}
      → Reach c past
      → (sid : Text) (s : Session) → c.sessions sid ≡ some s
      → IsSigned past s.visitor_msg × ((cm : ClientMsg) → s.client_msg ≡ some cm → cm.sid ≡ sid)
  unfolding Fits
  session-IsSigned r sid s e = (Reach-Inv_from r).fits sid s e

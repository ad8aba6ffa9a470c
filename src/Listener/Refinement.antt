-- ===== src/Listener/Refinement.antt =====
-- What listening means from outside: an endpoint, or none.
use yftpserver.Prelude.{
  ℕ, ◌≡◌, refl, ap, ◌∙◌, Bool, true, false, not, ◌&&◌, ◌||◌, inl, inr, Bool-cases, Option, none,
  some, if◌then◌else◌, ◌==◌, arith,
}
use yftpserver.Network.{Acceptor, ListensWhereBound}
use yftpserver.Listener.{
  Listener, inaddr_none, start_accept, stop_listening, open_and_listen, close_if_open, listen_at,
  start_listening,
}

-- The address and the port at which connections are accepted.
abbrev pub Endpoint : Type 0
Endpoint = Option (ℕ × ℕ)

-- The port that a start of listening asks for.
abbrev pub asked_port : ℕ → Listener → ℕ
asked_port us_port l = if us_port == 0 then l.port else us_port

-- An address and a port at which one can listen.
abbrev pub is_asked : ℕ → ℕ → Listener → Bool
is_asked addr us_port l = not (addr == inaddr_none) && not (us_port == 0 && l.port == 0)

module _ {F : Type 0} ⦃a : Acceptor F⦄ where
  -- The acceptor that an earlier listening, if there is one, leaves, and whether its end was reported as
  -- a success.
  abbrev pub ended_before : Listener → F → F × Bool
  ended_before l sys = if l.is_listening then a.close (a.cancel sys) else (sys, true)

  -- Whether the four calls that make an acceptor listen succeed, one after the other.
  abbrev pub calls_succeed : ℕ → ℕ → F → Bool
  calls_succeed addr port sys =
      let s1 = (a.open_socket sys).0 in
      let s2 = (a.reuse_address s1).0 in
      let s3 = (a.bind addr port s2).0 in
      ((a.open_socket sys).1 && (a.reuse_address s1).1)
      && ((a.bind addr port s2).1 && (a.listen s3).1)

  open_and_listen_succeeds :
      (addr port : ℕ) (sys : F) → (open_and_listen addr port sys).1 ≡ calls_succeed addr port sys
  unfolding open_and_listen
  open_and_listen_succeeds addr port sys = ground arith

module _ {F : Type 0} ⦃a : Acceptor F⦄ (law : ListensWhereBound a) where
  -- Nothing listens behind a flag that is not set.
  abbrev pub Covers : Listener → F → Type 0
  Covers l sys = l.is_listening ≡ false → a.endpoint sys ≡ none

  -- From a listener whose acceptor listens only if its flag is set: after `StopListening` the acceptor does
  -- not listen, in any case. The call returns false, and leaves the flag set, exactly if the flag was set
  -- and the closing of the acceptor reported an error.
  pub stop_listening_outcome :
      (l : Listener) (sys : F)
      → Covers l sys
      → let (l', sys', ret) = stop_listening l sys in
        (a.endpoint sys' ≡ none)
        × (ret ≡ not l.is_listening || (a.close (a.cancel sys)).1)
        × (l'.is_listening ≡ not ret)
  unfolding stop_listening
  stop_listening_outcome l sys h = elim (Bool-cases l.is_listening) [
    | inr off ↦ rw off (h off, refl, refl)
    | inl on ↦ elim (Bool-cases (a.close (a.cancel sys)).1) [
      | inl done ↦ rw (on, done) (law.close_closes (a.cancel sys), refl, refl)
      | inr stuck ↦ rw (on, stuck) (law.close_closes (a.cancel sys), refl, refl)
    ]
  ]

  pub open_and_listen_endpoint :
      (addr port : ℕ) (sys : F)
      → a.endpoint (open_and_listen addr port sys).0
        ≡ (if (open_and_listen addr port sys).1 then some (addr, port) else a.endpoint sys)
  unfolding open_and_listen
  open_and_listen_endpoint addr port sys =
      let s1 = (a.open_socket sys).0 in
      let s2 = (a.reuse_address s1).0 in
      let s3 = (a.bind addr port s2).0 in
      let k1 = law.open_keeps sys in
      let k2 = law.reuse_keeps s1 ∙ k1 in
      let k3 = law.bind_keeps addr port s2 ∙ k2 in
      elim (Bool-cases (a.open_socket sys).1) [
        | inr e ↦ rw e k1
        | inl e ↦ elim (Bool-cases (a.reuse_address s1).1) [
          | inr e' ↦ rw (e, e') k2
          | inl e' ↦ elim (Bool-cases (a.bind addr port s2).1) [
            | inr e'' ↦ rw (e, e', e'') k3
            | inl e'' ↦ elim (Bool-cases (a.listen s3).1) [
              | inr f ↦ rw (e, e', e'', f) (law.listen_fails s3 f ∙ k3)
              | inl f ↦
                  rw (e, e', e'', f)
                    (law.listen_listens s3 f ∙ ap some (law.bind_binds addr port s2 e''))
            ]
          ]
        ]
      ]

  close_if_open_idle : (sys : F) → a.endpoint sys ≡ none → a.endpoint (close_if_open sys) ≡ none
  unfolding close_if_open
  close_if_open_idle sys idle = elim (Bool-cases (a.is_open sys)) [
    | inr shut ↦ rw shut idle
    | inl up ↦ rw up (law.close_closes sys)
  ]

  -- What a start of listening leaves behind, by its success.
  abbrev pub Started : ℕ × ℕ → Bool → Listener → Listener × F × Bool → Type 0
  Started wanted done l (l', sys', ret) =
      (ret ≡ done)
      × (a.endpoint sys' ≡ (if done then some wanted else none))
      × (l'.is_listening ≡ done)
      × (l'.port ≡ (if done then wanted.1 else l.port))

  listen_at-Started :
      (addr us_port : ℕ) (l : Listener) (sys : F)
      → l.is_listening ≡ false
      → a.endpoint sys ≡ none
      → Started
          (addr, asked_port us_port l)
          (calls_succeed addr (asked_port us_port l) sys)
          l
          (listen_at addr us_port l sys)
  unfolding listen_at start_accept
  listen_at-Started addr us_port l sys off idle =
      let port = asked_port us_port l in
      let at = open_and_listen_endpoint addr port sys in
      let same = open_and_listen_succeeds addr port sys in
      elim (Bool-cases (open_and_listen addr port sys).1) [
        | inl up ↦
            let opened : a.endpoint (open_and_listen addr port sys).0 ≡ some (addr, port) =
              at ∙ rw up refl in
            rw (← same, up, opened) (refl, refl, refl, refl)
        | inr down ↦
            let still : a.endpoint (open_and_listen addr port sys).0 ≡ none = at ∙ rw down idle in
            rw (← same, down, off, close_if_open_idle _ still) (refl, refl, refl, refl)
      ]

  -- From a listener whose acceptor listens only if its flag is set: `StartListening` returns true exactly
  -- if the address is not INADDR_NONE and a port is given or was set, the end of an earlier listening
  -- reported no error, and each of the four calls on the acceptor succeeds; the acceptor then listens at
  -- that address and port. Where the address or the port will not do, it listens as before; else it
  -- listens nowhere. The flag is set by success, and stays as it was where the address or the port will
  -- not do or the earlier listening did not end well. The port is taken over by success alone.
  pub start_listening_outcome :
      (addr us_port : ℕ) (l : Listener) (sys : F)
      → Covers l sys
      → let (l', sys', ret) = start_listening addr us_port l sys in
        let port = asked_port us_port l in
        let good = is_asked addr us_port l in
        let (free, ended) = ended_before l sys in
        let done = good && (ended && calls_succeed addr port free) in
        (ret ≡ done)
        × (a.endpoint sys'
            ≡ (if done then some (addr, port) else if good then none else a.endpoint sys))
        × (l'.is_listening ≡ (if good && ended then done else l.is_listening))
        × (l'.port ≡ (if done then port else l.port))
  unfolding start_listening stop_listening
  start_listening_outcome addr us_port l sys h = elim (Bool-cases (is_asked addr us_port l)) [
    | inr bad ↦ rw (bad, refused bad) (refl, refl, refl, refl)
    | inl good ↦ elim (Bool-cases l.is_listening) [
      | inr off ↦
          rw (good, accepted good, off)
            (listen_at-Started addr us_port (record l { is_listening = false }) sys refl (h off))
      | inl on ↦ elim (Bool-cases (a.close (a.cancel sys)).1) [
        | inl done ↦
            rw (good, accepted good, on, done)
              (listen_at-Started addr us_port (record l { is_listening = false })
                (a.close (a.cancel sys)).0 refl (law.close_closes (a.cancel sys)))
        | inr stuck ↦
            rw (good, accepted good, on, stuck) (refl, law.close_closes (a.cancel sys), refl, refl)
      ]
    ]
  ]
    where
      refused :
          is_asked addr us_port l ≡ false
          → (addr == inaddr_none || us_port == 0 && l.port == 0) ≡ true
      refused bad = ground arith

      accepted :
          is_asked addr us_port l ≡ true
          → (addr == inaddr_none || us_port == 0 && l.port == 0) ≡ false
      accepted good = ground arith

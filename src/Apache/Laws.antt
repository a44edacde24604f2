-- ===== src/Apache/Laws.antt =====
-- What the Apache module forbids, and how it opens its queue.
use banip.Base.{
  ◌≡◌, refl, ◌∙◌, Bool, true, false, ◌&&◌, List, Option, none, some, Bytes, if◌then◌else◌, returns,
  ◌>>=◌, Returns, Returns->>=, Returns-inv, Returns-mono, Bool-cases, inl, inr,
}
use banip.Error.{null}
use banip.Process.{Proc, set_slot}
use banip.Queue.{QueueApi, fl_sender}
use banip.Queue.Contract.{Terms, IsQueue}
use banip.Apache.{Httpd, Request, Rule, ServerConf}
use banip.Apache.Rules.{AnyMatches, no_rule_left, first_matches, first_passes}
use banip.Apache.Tries.{HasArgs, Tried, try_rule-Tried}
use banip.Apache.Hooks.{
  Status, ok, declined, forbidden, internal_server_error, State, queue_send_message, fixup_rules,
  banip_fixup, open_configured, banip_queue_close, banip_post_config,
}

module _ {W R T : Type 0} (api : QueueApi W) (terms : Terms api) (keeps : IsQueue api terms)
    (h : Httpd R T) (write_log : Bytes → W → W) where
  abbrev TheState : Type 0
  TheState = State api h write_log

  -- What the fixup hook leaves: its answer, with the queue still open and the error as it was.
  abbrev pub Decided : TheState → Bool → Status × TheState → Type 0
  Decided s b t =
      (t.0 ≡ (if b then forbidden else declined))
      × ((q : api.Queue) × (t.1.queue ≡ some q) × terms.IsOpen q)
      × (t.1.proc.env.slot ≡ s.proc.env.slot)

  send_message-open :
      (ip : Bytes) (s : TheState) (q : api.Queue)
      → s.queue ≡ some q
      → terms.IsOpen q
      → terms.IsText q ip
      → Returns (λ t. Decided s true (forbidden, t)) (queue_send_message api h write_log ip s)
  unfolding queue_send_message
  send_message-open ip s q here opened fits = rw here (
      Returns->>= (λ r. (r.2.env.slot ≡ null) × terms.IsOpen r.1) _ _ _
        (keeps.sends_silently q ip (set_slot s.proc null) opened fits refl)
        λ (sent, q', p) (quiet, still). elim (Bool-cases sent) [
          | inl e ↦ rw e (refl, (q', refl, still), refl)
          | inr e ↦ rw e (refl, (q', refl, still), refl)
        ])

  fixup_rules-Decided :
      (r : Request T) {rules : List (Rule R)} {b : Bool} (s : TheState) (q : api.Queue)
      → s.queue ≡ some q
      → terms.IsOpen q
      → terms.IsText q r.useragent_ip
      → r.alive r.pool ≡ true
      → HasArgs api h write_log r s.get
      → AnyMatches h r rules b
      → Returns (Decided s b) (fixup_rules api h write_log r rules s)
  unfolding fixup_rules
  fixup_rules-Decided r s q here opened fits there own no_rule_left =
      (refl, (q, here, opened), refl)
  fixup_rules-Decided r s q here opened fits there own (first_matches rule rest matches) =
      let (get, own', tried) = try_rule-Tried api h write_log r rule s true there own matches in
      Returns->>= (Tried api h write_log r s true get) (Decided s true) _ _ tried
        λ (matched, s') (answer, same, kept, slot). rw answer (
          Returns->>= (λ t. Decided s' true (forbidden, t)) (Decided s true) _ _
            (send_message-open r.useragent_ip s' q (same ∙ here) opened fits)
            λ t d. (refl, d.1, d.2 ∙ slot))
  fixup_rules-Decided r s q here opened fits there own (first_passes rule rest b passes later) =
      let (get, own', tried) = try_rule-Tried api h write_log r rule s false there own passes in
      Returns->>= (Tried api h write_log r s false get) (Decided s b) _ _ tried
        λ (matched, s') (answer, same, kept, slot). rw answer (
          Returns-mono (Decided s' b) (Decided s b) _
            (fixup_rules-Decided r s' q (same ∙ here) opened fits there (rw kept own') later)
            λ t d. (d.0, d.1, d.2 ∙ slot))

  -- Over an open queue that takes the address, with the pool of the request there and no table of
  -- arguments kept but one of this request, if every rule up to the first that matches can be
  -- compared: the fixup hook returns, forbids the request exactly if the module is enabled and a
  -- rule matches it, whether or not the message was sent, and leaves the queue open. A rule matches
  -- if what it looks at (the path; a variable of the request, else a note, else a variable of the
  -- process; an argument; a header) is there and is equal to its pattern, or found by its regular
  -- expression.
  pub banip_fixup-Decided :
      (conf : ServerConf R) (r : Request T) (s : TheState) (q : api.Queue) (b : Bool)
      → s.queue ≡ some q
      → terms.IsOpen q
      → terms.IsText q r.useragent_ip
      → r.alive r.pool ≡ true
      → HasArgs api h write_log r s.get
      → AnyMatches h r conf.rules b
      → Returns (Decided s (conf.enabled && b)) (banip_fixup api h write_log conf r s)
  unfolding banip_fixup
  banip_fixup-Decided conf r s q b here opened fits there own judged =
      elim (Bool-cases conf.enabled) [
        | inl e ↦ rw e (fixup_rules-Decided r s q here opened fits there own judged)
        | inr e ↦ rw e (refl, (q, here, opened), refl)
      ]

  -- The process that the start of the server hands to a call of the queue.
  module _ (conf : ServerConf R) (name : Bytes) (s : TheState) (q : api.Queue) (p : Proc W)
      (asked : conf.queue_name ≡ some name)
      (made : api.queue_init (set_slot s.proc null) ≡ returns (some q, p)) where
    abbrev quiet : Proc W
    quiet = set_slot (set_slot p s.proc.env.slot) null

    refused-Returns :
        (q1 : api.Queue) (s' : TheState)
        → s'.queue ≡ some q1
        → Returns
            (λ (t : Status × TheState). t.0 ≡ internal_server_error)
            (do s'' ← banip_queue_close api h write_log s'; returns (internal_server_error, s''))
    unfolding banip_queue_close
    refused-Returns q1 s' here =
        let (r, run, closed) =
          Returns-inv
            (λ (r : Bool × Option api.Queue × Proc W).
              (r.2.env.slot ≡ null) × (r.0 ≡ true → r.1 ≡ none))
            _ (keeps.closes_silently (some q1) (set_slot s'.proc null) refl) in
        rw (here, run, banip_queue_close) refl

    -- Over a queue that keeps the contract, with the module enabled, a name given and the queue
    -- made: if `queue_open` succeeds, the start of the server fails with an internal error; if
    -- `queue_open` fails, the start goes on, and the hooks keep the queue that was not opened.
    pub banip_post_config-inverted :
        (b : Bool) (q1 : api.Queue) (p1 : Proc W)
        → conf.enabled ≡ true
        → api.queue_open q name fl_sender quiet ≡ returns (b, q1, p1)
        → Returns
            (λ t.
              (t.0 ≡ (if b then internal_server_error else ok)) × (b ≡ false → t.1.queue ≡ some q1))
            (banip_post_config api h write_log false conf s)
    unfolding banip_post_config open_configured
    banip_post_config-inverted true q1 p1 on run =
        rw (on, asked, made, run)
          (Returns-mono (λ (t : Status × TheState). t.0 ≡ internal_server_error) _ _
            (refused-Returns q1 _ refl) λ t e. (e, λ never. cc never))
    banip_post_config-inverted false q1 p1 on run = rw (on, asked, made, run) (refl, λ e. refl)

-- ===== src/Apache/Hooks.antt =====
-- clients/apache24/mod_banip.c: the hooks, which use the queue. Its calls of the queue lack the
-- argument for the error, which is taken to be `NULL`; `QUEUE_ERR_OK` is 0, that is `false`.
use banip.Base.{
  Bool, false, is_some, ◌||◌, List, [], ◌∷◌, Option, none, some, Bytes, codes, if◌then◌else◌,
  Outcome, returns, undefined, null_pointer, ◌>>=◌,
}
use banip.Error.{null}
use banip.Process.{Proc, set_world, set_slot}
use banip.Queue.{QueueApi, fl_sender}
use banip.Apache.{
  Httpd, Request, Kept, Rule, ServerConf, variables, banip_header, find_variable, compare_rule,
  lookup,
}

-- `OK`, `DECLINED`, `HTTP_FORBIDDEN` and `HTTP_INTERNAL_SERVER_ERROR`
pub data Status : Type 0 where
  ok declined forbidden internal_server_error : Status

module _ {W R T : Type 0} (api : QueueApi W) (h : Httpd R T) (write_log : Bytes → W → W) where
  -- The static `queue`, the `get` of the directory's configuration, and the process.
  pub record State : Type 0 where
    pub queue : Option api.Queue
    pub get : Option (Kept T)
    pub proc : Proc W

  abbrev pub log_line : Bytes → State → State
  log_line text s = record s { proc = set_world s.proc (write_log text s.proc.world) }

  -- `false` is taken for success.
  unfoldable pub queue_send_message : Bytes → State → Outcome State
  queue_send_message ip s = elim s.queue [
    | none ↦ undefined null_pointer
    | some q ↦ do
      (sent, q', p) ← api.queue_send q ip none (set_slot s.proc null)
      let s' : State = record s { queue = some q'; proc = set_slot p s.proc.env.slot }
      returns (
          if sent
          then log_line (codes "Failed sending message") s'
          else log_line (codes "Message sent") s')
  ]

  -- What a rule looks at is compared with its pattern.
  unfoldable pub try_rule : Request T → Rule R → State → Outcome (Bool × State)
  try_rule r rule s = do
    found ← find_variable variables rule.what
    elim found [
      | none ↦ returns (false, s)
      | some (v, name) ↦ do
        (string, get) ← lookup h v name r s.get
        elim string [
          | none ↦ returns (false, record s { get = get })
          | some text ↦ do
            matched ← compare_rule h rule text
            returns (matched, log_line text (record s { get = get }))
        ]
    ]

  -- The loop over the rules of the server; the address is sent for the first that matches.
  unfoldable pub fixup_rules : Request T → List (Rule R) → State → Outcome (Status × State)
  unfolding try_rule queue_send_message
  fixup_rules r [] s = returns (declined, s)
  fixup_rules r (rule ∷ rest) s = do
    (matched, s') ← try_rule r rule s
    let banned = (do s'' ← queue_send_message r.useragent_ip s'; returns (forbidden, s''))
    let more = fixup_rules r rest s'
    if matched then banned else more

  unfoldable pub banip_fixup : ServerConf R → Request T → State → Outcome (Status × State)
  unfolding fixup_rules
  banip_fixup conf r s =
      let checked = fixup_rules r conf.rules s in
      if conf.enabled then checked else returns (declined, s)

  unfoldable pub banip_queue_close : State → Outcome State
  banip_queue_close s = elim s.queue [
    | none ↦ returns s
    | some q ↦ do
      (closed, q', p) ← api.queue_close (some q) (set_slot s.proc null)
      returns (record s { queue = q'; proc = set_slot p s.proc.env.slot })
  ]

  -- `QUEUE_ERR_OK != queue_open(...)` holds where `queue_open` succeeds.
  unfoldable pub open_configured : Bytes → api.Queue → State → Outcome (Status × State)
  unfolding banip_queue_close
  open_configured name q s = do
    (opened, q', p) ← api.queue_open q name fl_sender (set_slot s.proc null)
    let s' : State = record s { queue = some q'; proc = set_slot p s.proc.env.slot }
    let refused = (do
      s'' ← banip_queue_close (log_line (codes "Failed to open queue") s')
      returns (internal_server_error, s''))
    if opened then refused else returns (ok, s')

  unfoldable pub banip_post_config : Bool → ServerConf R → State → Outcome (Status × State)
  unfolding open_configured
  banip_post_config pre_config conf s =
      let configured : Outcome (Status × State) = elim conf.queue_name [
        | none ↦ returns (
          internal_server_error,
          log_line (codes "A 'BanIPQueue' directive is missing to set queue name") s,
        )
        | some name ↦ do
          (made, p) ← api.queue_init (set_slot s.proc null)
          let s' : State = record s { queue = made; proc = set_slot p s.proc.env.slot }
          elim made [
            | none ↦
                returns (internal_server_error, log_line (codes "Failed to initialize a queue") s')
            | some q ↦ open_configured name q s'
          ]
      ] in
      if pre_config then returns (ok, s) else if conf.enabled then configured else returns (ok, s)

  -- `apr_table_unset` of both tables.
  abbrev pub without_header : Request T → Request T
  without_header r = record r {
    headers_out = h.table_unset r.headers_out banip_header;
    err_headers_out = h.table_unset r.err_headers_out banip_header;
  }

  -- The output filter, which then removes itself: `none` passes the response on, and `some` is given
  -- to `ap_die` as well.
  unfoldable pub banip_output_filter :
      Request T → State → Outcome (Option Status × Request T × State)
  unfolding queue_send_message
  banip_output_filter r s =
      let banned = (do
        s' ← queue_send_message r.useragent_ip s
        returns (some forbidden, without_header r, s')) in
      if is_some (h.table_get r.headers_out banip_header)
        || is_some (h.table_get r.err_headers_out banip_header)
      then banned
      else returns (none, r, s)

  -- Whether the filter is added.
  unfoldable pub banip_insert_output_filter : ServerConf R → Bool
  banip_insert_output_filter conf = conf.enabled

-- ===== src/Main/Init/Starts.antt =====
-- What `init` leaves, with a configuration that is right and with one that is not.
use scrutiny_embedded.Base.{
  ℕ, zero, suc, Bool, true, false, ◌≡◌, arith, List, [], ◌∷◌, inl, inr, leb, ◌==◌, Bool-cases, none,
  some, Option, refl, not, ◌≢◌, ◌≤◌, ◌⊎◌, ◌↔◌, if◌then◌else◌,
}
use scrutiny_embedded.Tools.Types.{is_supported_type}
use scrutiny_embedded.Comm.State
use scrutiny_embedded.Comm.Session
use scrutiny_embedded.Datalogging.Configuration
use scrutiny_embedded.LoopHandler.{LoopHandler}
use scrutiny_embedded.Main.{RuntimePublishedValue}
use scrutiny_embedded.Main.Config.{Config}
use scrutiny_embedded.Main.Ownership.{Loops}
use scrutiny_embedded.Main.Ownership.Safety.{IsInitial}
use scrutiny_embedded.Main.Process.{MainHandler}
use scrutiny_embedded.Main.Init.{
  Buffers, held, is_set, check_rpvs, check_config, init_loops, init_datalogging, init,
}

pub record IsEmpty (l : LoopHandler) : Type 0 where
  pub in_mailbox : l.main2loop_msg ≡ none
  pub out_mailbox : l.loop2main_msg ≡ none

-- The loops that are started have empty mailboxes, as those that there are not are taken to have.
init_loops-IsEmpty :
    (count : ℕ) (loops : Loops) (j : ℕ)
    → (leb count j ≡ true → IsEmpty (loops j))
    → IsEmpty (init_loops count loops j)
unfolding init_loops scrutiny_embedded.LoopHandler.init
init_loops-IsEmpty zero loops j beyond = beyond (ground arith)
init_loops-IsEmpty (suc i) loops j beyond = elim (Bool-cases (i == j)) [
  | inl same ↦ record { in_mailbox = ground (arith, same); out_mailbox = ground (arith, same) }
  | inr other ↦
      let rest = init_loops-IsEmpty i loops j (λ more. beyond (ground (arith, other, more))) in
      let a = rest.in_mailbox in
      let b = rest.out_mailbox in
      record { in_mailbox = ground (arith, other, a); out_mailbox = ground (arith, other, b) }
]

-- With a configuration that is right the handler and its communication are enabled, no request is served, and the
-- datalogger belongs to nobody; with another both are disabled.
pub record IsStarted {Data : Type 0} (result : MainHandler Data × Bool) : Type 0 where
  pub status : result.1 ≡ true
  pub enabled : result.0.enabled ≡ true
  pub comm_enabled : result.0.comm_handler.enabled ≡ true
  pub session : result.0.comm_handler.session_active ≡ false
  pub unserved : result.0.processing_request ≡ false
  pub system : IsInitial result.0.system

pub record IsRefused {Data : Type 0} (result : MainHandler Data × Bool) : Type 0 where
  pub status : result.1 ≡ false
  pub enabled : result.0.enabled ≡ false
  pub comm_enabled : result.0.comm_handler.enabled ≡ false

-- Every published value has a type that is supported.
abbrev pub AllSupported : List RuntimePublishedValue → Type 0
AllSupported [] = true ≡ true
AllSupported (rpv ∷ rpvs) = (is_supported_type rpv.type ≡ true) × AllSupported rpvs

-- Both buffers are there, of 32 to 65519 bytes, and the published values are supported.
pub record IsRight (config : Config) (b : Buffers) : Type 0 where
  pub rx_buffer : b.rx_buffer ≢ none
  pub rx_least : 32 ≤ config.rx_buffer_size
  pub rx_most : config.rx_buffer_size ≤ 65519
  pub tx_buffer : b.tx_buffer ≢ none
  pub tx_least : 32 ≤ config.tx_buffer_size
  pub tx_most : config.tx_buffer_size ≤ 65519
  pub rpvs : AllSupported config.rpvs

is_set-none : (o : Option (List ℕ)) → (is_set o ≡ true) ↔ (o ≢ none)
is_set-none none = (λ e. absurd (ground (arith, e)), λ ne. absurd (ne refl))
is_set-none (some bytes) = (λ e. λ f. absurd (ground (arith, f)), λ ne. refl)

AllSupported-check_rpvs :
    (rpvs : List RuntimePublishedValue) (enabled : Bool)
    → (check_rpvs rpvs enabled ≡ true) ↔ ((enabled ≡ true) × AllSupported rpvs)
unfolding check_rpvs
AllSupported-check_rpvs [] enabled = (λ e. (e, refl), λ both. both.0)
AllSupported-check_rpvs (rpv ∷ rpvs) enabled =
    let rest =
      AllSupported-check_rpvs rpvs (if not (is_supported_type rpv.type) then false else enabled) in
    (
      λ e. let r = rest.0 e in (ground (arith, r.0), (ground (arith, r.0), r.1)),
      λ both. rest.1 (ground (arith, both.0, both.1.0), both.1.1),
    )

IsRight-check_config :
    (config : Config) (b : Buffers) → (check_config config b ≡ true) ↔ IsRight config b
unfolding check_config
IsRight-check_config config b =
    let rpvs = AllSupported-check_rpvs config.rpvs in
    let rx = is_set-none b.rx_buffer in
    let tx = is_set-none b.tx_buffer in
    (
      λ e.
          let r = (rpvs _).0 e in
          let checked = r.0 in
          record {
            rx_buffer = rx.0 (ground (arith, checked));
            rx_least = ground (arith, checked);
            rx_most = ground (arith, checked);
            tx_buffer = tx.0 (ground (arith, checked));
            tx_least = ground (arith, checked);
            tx_most = ground (arith, checked);
            rpvs = r.1;
          },
      λ right.
          let has_rx = rx.1 right.rx_buffer in
          let has_tx = tx.1 right.tx_buffer in
          let a = right.rx_least in
          let b' = right.rx_most in
          let c = right.tx_least in
          let d = right.tx_most in
          (rpvs _).1 (ground (arith, has_rx, has_tx, a, b', c, d), right.rpvs),
    )

check_rpvs-enabled :
    (rpvs : List RuntimePublishedValue) (enabled : Bool)
    → check_rpvs rpvs enabled ≡ true
    → enabled ≡ true
unfolding check_rpvs
check_rpvs-enabled [] enabled checked = checked
check_rpvs-enabled (rpv ∷ rpvs) enabled checked =
    let before = check_rpvs-enabled rpvs _ checked in ground (arith, before)

-- A configuration that is right has buffers that the communication handler starts with.
check_config-starts :
    {Data : Type 0} (config : Config) (b : Buffers) (h : MainHandler Data)
    → check_config config b ≡ true
    → (let comm =
          State.init h.timebase h.comm_handler
            (held b.rx_buffer)
            config.rx_buffer_size
            (held b.tx_buffer)
            config.tx_buffer_size
            b.session_counter_seed in
        (comm.enabled ≡ true) × (comm.session_active ≡ false))
unfolding check_config State.init State.reset State.reset_rx State.reset_tx
check_config-starts config b h checked =
    let right = check_rpvs-enabled config.rpvs _ checked in (ground (arith, right), ground arith)

module _ {Data : Type 0} (config : Config) (b : Buffers) (main_handler : Configuration.MainHandler)
    (h : MainHandler Data) where
  init-IsRefused : check_config config b ≡ false → IsRefused (init config b main_handler h)
  unfolding init Session.disable
  init-IsRefused wrong = record {
    status = ground (arith, wrong);
    enabled = ground (arith, wrong);
    comm_enabled = ground (arith, wrong);
  }

  init-IsStarted :
      ((j : ℕ) → leb config.loop_count j ≡ true → IsEmpty ((h.system).loops j))
      → check_config config b ≡ true
      → IsStarted (init config b main_handler h)
  unfolding init init_datalogging
  init-IsStarted beyond checked =
      let (on, free) = check_config-starts config b h checked in
      let empty = λ (j : ℕ). init_loops-IsEmpty config.loop_count (h.system).loops j (beyond j) in
      record {
        status = ground (arith, checked, on);
        enabled = ground (arith, checked, on);
        comm_enabled = ground (arith, checked, on);
        session = ground (arith, checked, on, free);
        unserved = ground (arith, checked, on);
        system = record {
          error = ground (arith, checked, on);
          main_owner = ground (arith, checked, on);
          request = ground (arith, checked, on);
          pending = ground (arith, checked, on);
          owner = ground (arith, checked, on);
          ins = λ j. let e = (empty j).in_mailbox in ground (arith, checked, on, e);
          outs = λ j. let e = (empty j).out_mailbox in ground (arith, checked, on, e);
        };
      }

-- Where both buffers are there, of 32 to 65519 bytes, and every published value has a type that is supported, the
-- start succeeds: the handler and its communication are enabled, no request is served, no session is
-- active and nobody owns the datalogger. With any other configuration it fails, and both are
-- disabled. The loops that there are not are taken to have empty mailboxes.
pub init-Starts :
    {Data : Type 0} (config : Config) (b : Buffers) (main_handler : Configuration.MainHandler)
    (h : MainHandler Data)
    → ((j : ℕ) → leb config.loop_count j ≡ true → IsEmpty ((h.system).loops j))
    → IsRight config b × IsStarted (init config b main_handler h)
      ⊎ (¬ IsRight config b) × IsRefused (init config b main_handler h)
init-Starts config b main_handler h beyond =
    let right = IsRight-check_config config b in
    elim (Bool-cases (check_config config b)) [
      | inl checked ↦ inl (right.0 checked, init-IsStarted config b main_handler h beyond checked)
      | inr wrong ↦ inr (
        λ r. absurd (ground (arith, wrong, right.1 r)),
        init-IsRefused config b main_handler h wrong,
      )
    ]

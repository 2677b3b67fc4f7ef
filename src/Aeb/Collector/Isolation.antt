-- ===== src/Aeb/Collector/Isolation.antt =====
-- aeb_collector.py, main: what a datagram cannot reach.
use wireless_boot_entropy_ze.Base.{
  ◌≡◌, ◌≢◌, refl, ap, sym, Bool, false, Option, Bool-cases, inl, inr, pair_eq, nat_eq,
}
use wireless_boot_entropy_ze.Base.Int.{ℤ, pos, int_eq}
use wireless_boot_entropy_ze.Python.Result.{Result, ok, err, Result-cases}
use wireless_boot_entropy_ze.Python.Struct.{Bytes}
use wireless_boot_entropy_ze.Python.Text.{Text, text_eq}
use wireless_boot_entropy_ze.Python.Dict.{Dict, lookup, insert, erase, lookup-insert, lookup-erase}
use wireless_boot_entropy_ze.Aeb.Wire.{Message}
use wireless_boot_entropy_ze.Aeb.Trial.{Peer, StateKey, Time, TrialState, Disk}
use wireless_boot_entropy_ze.Aeb.Stimulus.{Args, Draws, send_stimulus}
use wireless_boot_entropy_ze.Aeb.Collector.Cases.{handle_datagram_cases}
use wireless_boot_entropy_ze.Aeb.Collector.{
  Collector, with_end, after_finalize, close_trial, handle_hello, handle_datagram, start_nonce_of,
}

-- The trials of every other peer are as they were.
abbrev pub OthersKept : Peer → Collector → Collector → Type 0
OthersKept peer c c' =
    (other : Peer) (trial : ℤ)
    → other ≢ peer
    → lookup (other, trial) c'.states ≡ lookup (other, trial) c.states

key-ne : (peer other : Peer) (t u : ℤ) → other ≢ peer → pair_eq.beq (peer, t) (other, u) ≡ false
key-ne peer other t u ne = elim (Bool-cases (pair_eq.beq (peer, t) (other, u))) [
  | inr no_match ↦ no_match
  | inl same ↦ absurd (ne (ap (λ k. k.0) (sym ((pair_eq.beq_iff (peer, t) (other, u)).0 same))))
]

insert-OthersKept :
    (peer : Peer) (trial : ℤ) (state : TrialState) (c : Collector)
    (states : Dict StateKey TrialState)
    → c.states ≡ states
    → OthersKept peer c (record c { states = insert (peer, trial) state states })
insert-OthersKept peer trial state c states e other t ne =
    rw (lookup-insert (peer, trial) (other, t) state states, key-ne peer other trial t ne, e)

erase-OthersKept :
    (peer : Peer) (trial : ℤ) (c : Collector)
    → OthersKept peer c (record c { states = erase (peer, trial) c.states })
erase-OthersKept peer trial c other t ne =
    rw (lookup-erase (peer, trial) (other, t) c.states, key-ne peer other trial t ne)

after_finalize-OthersKept :
    (peer : Peer) (trial : ℤ) (state : TrialState) (c : Collector) (r : Result Bool × Disk)
    → OthersKept peer c (after_finalize (peer, trial) state c r).1
unfolding after_finalize
after_finalize-OthersKept peer trial state c (ok complete, disk) = erase-OthersKept peer trial c
after_finalize-OthersKept peer trial state c (err e, disk) =
    insert-OthersKept peer trial state c c.states refl

module _ (sha256_hex : Bytes → Text) (args : Args) (fixed : Option Bytes) where
  handle_hello-OthersKept :
      (msg : Message) (peer : Peer) (rx_time : Time) (draws : Draws) (c : Collector)
      → OthersKept peer c (handle_hello sha256_hex args fixed msg peer rx_time draws c).1
  unfolding handle_hello
  handle_hello-OthersKept msg peer rx_time draws c other t ne =
      let nonce = start_nonce_of sha256_hex args fixed msg in
      Result-cases
        (send_stimulus sha256_hex args msg nonce peer c.capture_counter rx_time draws c.disk).0 _
        (λ state e.
          rw (handle_hello, e)
            (insert-OthersKept peer (pos msg.trial) state c c.states refl other t ne))
        (λ raise e. rw (handle_hello, e))

  -- A datagram leaves the open trials of every other peer as they are.
  pub handle_datagram-OthersKept :
      (buffer : Bytes) (peer : Peer) (rx_time : Time) (draws : Draws) (c : Collector)
      → OthersKept peer c (handle_datagram sha256_hex args fixed buffer peer rx_time draws c).1
  unfolding close_trial
  handle_datagram-OthersKept buffer peer rx_time draws c =
      handle_datagram_cases (λ r. OthersKept peer c r.1) sha256_hex args fixed peer rx_time draws c
        buffer (λ e other t ne. refl)
        (λ trial state state' found same. insert-OthersKept peer trial state' c c.states refl)
        (λ msg state found.
          after_finalize-OthersKept peer (pos msg.trial) (with_end msg state)
            (record c { last_rx = rx_time }) _)
        (λ msg. handle_hello-OthersKept msg peer rx_time draws (record c { last_rx = rx_time }))
        (λ other t ne. refl)

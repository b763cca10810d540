-- ===== src/Uefi/SetVariable/Vector.antt =====
-- Commands and waking vectors under the SetVariable hook (uefi/services/hooks/set_variable/).
use switch_os.Base.{
  ℕ, ◌+◌, ◌^◌, ◌≤◌, ◌<◌, ◌≡◌, ◌≢◌, refl, ◌∙◌, ◌⊎◌, inl, inr, true, false, ltb, ◌==◌, Bool-cases,
  List, [], ◌∷◌, arith,
}
use switch_os.Base.Action.{Action, Result, ok}
use switch_os.Base.Bytes.{Bytes, load32, load32-store, load32-same, store, store-Outside, Apart}
use switch_os.Core.Header.{is_core_header_action_valid}
use switch_os.Uefi.SetVariable.{
  HookHeader, Call, ServiceState, header_action, core_wakeup_phys_addr, set_core_action_name,
  wstrcmp_is_0, is_commands_guid, is_checkpoint, take_vector, set_core_action_handler,
  handle_command, set_variable,
}

load32-beside : (m : Bytes) (a v b : ℕ) → Apart a 4 b 4 → load32 (store 4 m a v) b ≡ load32 m b
load32-beside m a v b apart =
    load32-same m (store 4 m a v) b (λ x p q. store-Outside 4 m a v x (omega (arith, apart, p, q)))

module _ {World : Type 0} (h : HookHeader) (efierr : ℕ)
    (original_set_variable : Call → Action (ServiceState World) ℕ) where
  abbrev pub called : Call → ServiceState World → Result ℕ × ServiceState World
  called c s = set_variable h efierr original_set_variable c s

  abbrev pub set_action : ℕ → ServiceState World → ServiceState World
  set_action action s = record s { mem = store 4 s.mem (h.core_header + header_action) action }

  -- What a call with the GUID of the commands comes to. None of them reaches the firmware.
  pub data Handled (c : Call) (s : ServiceState World)
      : Result ℕ × ServiceState World → Type 0 where
    deleted : c.data_size ≡ 0 → Handled c s (ok 0, s)
    unknown :
        c.data_size ≢ 0
        → wstrcmp_is_0 s.mem c.variable_name set_core_action_name ≡ false
        → Handled c s (ok 0, s)
    refused :
        c.data_size ≢ 0
        → wstrcmp_is_0 s.mem c.variable_name set_core_action_name ≡ true
        → (c.data_size ≢ 4) ⊎ (3 ≤ load32 s.mem c.data_ptr)
        → Handled c s (ok efierr, s)
    action_set :
        c.data_size ≡ 4
        → wstrcmp_is_0 s.mem c.variable_name set_core_action_name ≡ true
        → load32 s.mem c.data_ptr < 3
        → Handled c s (ok 0, set_action (load32 s.mem c.data_ptr) s)

  pub set_variable-Handled :
      (c : Call) (s : ServiceState World)
      → is_commands_guid s.mem c.vendor_guid ≡ true
      → Handled c s (called c s)
  unfolding set_variable handle_command set_core_action_handler is_core_header_action_valid
  set_variable-Handled c s e = elim (Bool-cases (c.data_size == 0)) [
    | inl f ↦ rw (e, f) (deleted (ground arith))
    | inr f ↦ elim (Bool-cases (wstrcmp_is_0 s.mem c.variable_name set_core_action_name)) [
      | inr g ↦ rw (e, f, g) (unknown (ground arith) g)
      | inl g ↦ elim (Bool-cases (c.data_size == 4)) [
        | inr k ↦ rw (e, f, g, k) (refused (ground arith) g (inl (ground arith)))
        | inl k ↦ elim (Bool-cases (ltb (load32 s.mem c.data_ptr) 3)) [
          | inl l ↦ rw (e, f, g, k, l) (action_set (ground arith) g (ground arith))
          | inr l ↦ rw (e, f, g, k, l) (refused (ground arith) g (inr (ground arith)))
        ]
      ]
    ]
  ]

  -- The kernel's vector `v` is saved, and the wakeup leads to core.
  pub record Hooked (v : ℕ) (s : ServiceState World) : Type 0 where
    pub to_core : load32 s.mem h.waking_vector_addr ≡ core_wakeup_phys_addr
    pub saved : load32 s.mem h.original_waking_vector_addr ≡ v

  -- The firmware's service leaves both vectors alone, and these and the action do not overlap.
  pub record Separate : Type 0 where
    pub vectors : Apart h.waking_vector_addr 4 h.original_waking_vector_addr 4
    pub action : Apart (h.core_header + header_action) 4 h.waking_vector_addr 4
    pub action_saved : Apart (h.core_header + header_action) 4 h.original_waking_vector_addr 4
    pub waking_kept :
        (c : Call) (s : ServiceState World)
        → load32 (original_set_variable c s).1.mem h.waking_vector_addr
          ≡ load32 s.mem h.waking_vector_addr
    pub original_kept :
        (c : Call) (s : ServiceState World)
        → load32 (original_set_variable c s).1.mem h.original_waking_vector_addr
          ≡ load32 s.mem h.original_waking_vector_addr

  original-Hooked :
      (v : ℕ) (c : Call) (s : ServiceState World)
      → Separate
      → Hooked v s
      → Hooked v (original_set_variable c s).1
  original-Hooked v c s sep k = record {
    to_core = sep.waking_kept c s ∙ k.to_core;
    saved = sep.original_kept c s ∙ k.saved;
  }

  taken-Hooked :
      (v : ℕ) (s : ServiceState World)
      → Separate
      → v < 2 ^ 32
      → load32 s.mem h.waking_vector_addr ≡ v
      → Hooked v (record s { mem = take_vector h s.mem })
  taken-Hooked v s sep small e =
      let at = h.waking_vector_addr in
      let saved = h.original_waking_vector_addr in
      let m = store 4 s.mem saved (load32 s.mem at) in
      record {
        to_core = load32-store m at core_wakeup_phys_addr (omega arith);
        saved =
            load32-beside m at core_wakeup_phys_addr saved sep.vectors
            ∙ load32-store s.mem saved (load32 s.mem at) (omega (arith, e, small))
            ∙ e;
      }

  Handled-Hooked :
      (v : ℕ) (c : Call) (s : ServiceState World) (r : Result ℕ × ServiceState World)
      → Separate
      → Hooked v s
      → Handled c s r
      → Hooked v r.1
  Handled-Hooked v c s _ sep k (deleted e) = k
  Handled-Hooked v c s _ sep k (unknown e f) = k
  Handled-Hooked v c s _ sep k (refused e f g) = k
  Handled-Hooked v c s _ sep k (action_set e f g) =
      let action = load32 s.mem c.data_ptr in
      let at = h.core_header + header_action in
      record {
        to_core = load32-beside s.mem at action h.waking_vector_addr sep.action ∙ k.to_core;
        saved =
            load32-beside s.mem at action h.original_waking_vector_addr sep.action_saved ∙ k.saved;
      }

  passed_runs :
      (c : Call) (s : ServiceState World)
      → is_commands_guid s.mem c.vendor_guid ≡ false
      → is_checkpoint h c s.mem ≡ false
      → called c s ≡ original_set_variable c s
  unfolding set_variable
  passed_runs c s e f = rw (e, f) refl

  checkpoint_runs :
      (c : Call) (s : ServiceState World)
      → is_commands_guid s.mem c.vendor_guid ≡ false
      → is_checkpoint h c s.mem ≡ true
      → called c s ≡ original_set_variable c (record s { mem = take_vector h s.mem })
  unfolding set_variable
  checkpoint_runs c s e f = rw (e, f) refl

  is_checkpoint_off :
      (v : ℕ) (c : Call) (s : ServiceState World) → Hooked v s → is_checkpoint h c s.mem ≡ false
  is_checkpoint_off v c s k = elim (Bool-cases (is_checkpoint h c s.mem)) [
    | inr e ↦ e
    | inl e ↦ absurd (ground (arith, e, k.to_core))
  ]

  set_variable-Hooked :
      (v : ℕ) (c : Call) (s : ServiceState World) → Separate → Hooked v s → Hooked v (called c s).1
  set_variable-Hooked v c s sep k = elim (Bool-cases (is_commands_guid s.mem c.vendor_guid)) [
    | inl e ↦ Handled-Hooked v c s (called c s) sep k (set_variable-Handled c s e)
    | inr e ↦ rw (passed_runs c s e (is_checkpoint_off v c s k)) (original-Hooked v c s sep k)
  ]

  -- Memory after calls in order.
  abbrev pub after_calls : List Call → ServiceState World → ServiceState World
  after_calls [] s = s
  after_calls (c ∷ cs) s = after_calls cs (called c s).1

  after_calls-Hooked :
      (v : ℕ) (cs : List Call) (s : ServiceState World)
      → Separate
      → Hooked v s
      → Hooked v (after_calls cs s)
  after_calls-Hooked v [] s sep k = k
  after_calls-Hooked v (c ∷ cs) s sep k =
      after_calls-Hooked v cs (called c s).1 sep (set_variable-Hooked v c s sep k)

  -- Once a sleep checkpoint finds the waking vector of the kernel, it is saved and the wakeup leads
  -- to core, and this stays so after any further calls, other checkpoints included.
  pub checkpoint_then_calls-Hooked :
      (v : ℕ) (c : Call) (cs : List Call) (s : ServiceState World)
      → Separate
      → v < 2 ^ 32
      → load32 s.mem h.waking_vector_addr ≡ v
      → is_commands_guid s.mem c.vendor_guid ≡ false
      → is_checkpoint h c s.mem ≡ true
      → Hooked v (after_calls (c ∷ cs) s)
  checkpoint_then_calls-Hooked v c cs s sep small e f g =
      let taken = record s { mem = take_vector h s.mem } in
      after_calls-Hooked v cs (called c s).1 sep (
        rw (checkpoint_runs c s f g) (original-Hooked v c taken sep (taken-Hooked v s sep small e)))

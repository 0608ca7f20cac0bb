-- ===== src/Agent/Update/Prepare.antt =====
-- What prepareUpdateJournal leaves on the disk.
use mathlib.Core.Option.{some-injective}
use tgproxy_panel.Prelude.{
  option_when, if_both, All-append_one, String, ◌≡◌, refl, sym, ap, ◌∙◌, ◌⊎◌, inl, inr, Bool, true,
  not, ◌||◌, Option, none, some, arith, if◌then◌else◌,
}
use tgproxy_panel.Agent.Update.Crash.{Held, store-Held}
use tgproxy_panel.Agent.Update.Disk.{
  Course, Disk, PrepareHost, UpdateJournal, check_update_journal, intent_of, original_admission,
  prepare_update_journal, save_verified_copy, store, write_update_journal,
}
use tgproxy_panel.Agent.Files.{
  Write, done, failed_early, failed_late, holds, write_atomic, write_atomic_cases,
}

-- The journal is active, and the known-good copies are the old files, with their checksums.
abbrev pub Backed : (String → String) → String → String → UpdateJournal → Disk → Type 0
Backed sha b s j d =
    (j.active ≡ true)
    × (j.names_good_binary ≡ true)
    × (j.names_good_config ≡ true)
    × (d.good_binary ≡ some b)
    × (d.good_config ≡ some s)
    × (j.binary_sha ≡ sha b)
    × (j.config_sha ≡ sha s)

abbrev pub Undoable : (String → String) → String → String → Disk → Type 0
Undoable sha b s d = (j : UpdateJournal) × (d.journal ≡ holds j) × Backed sha b s j d

-- A disk that no crash can spoil: the journal undoes the update, or no journal is active and the files
-- are the old ones, or the binary is the new one.
abbrev pub Safe : (String → String) → String → String → Option String → Disk → Type 0
Safe sha b s staged d =
    Undoable sha b s d
    ⊎ ((check_update_journal d.journal ≡ true)
        × (((d.binary ≡ some b) × (d.config ≡ some s))
            ⊎ ((new : String) × (staged ≡ some new) × (d.binary ≡ some new))))

copy_some :
    (sha : String → String) (w : Write) (text sum : String) (old : Option String)
    → (save_verified_copy sha w (some text) old).1 ≡ some sum
    → ((save_verified_copy sha w (some text) old).0 ≡ some text) × (sum ≡ sha text)
unfolding save_verified_copy write_atomic
copy_some sha failed_early text sum old e = ground arith
copy_some sha failed_late text sum old e = ground arith
copy_some sha done text sum old e = ground arith

copy_of :
    (sha : String → String) (w : Write) (text sum : String) (file old : Option String)
    → file ≡ some text
    → (save_verified_copy sha w file old).1 ≡ some sum
    → ((save_verified_copy sha w file old).0 ≡ some text) × (sum ≡ sha text)
copy_of sha w text sum file old is_text e =
    rw is_text (copy_some sha w text sum old (rw is_text at e))

-- What the journal is when prepareUpdateJournal returns it.
abbrev pub Intent :
    (String → String)
    → String
    → String
    → PrepareHost
    → Bool
    → String
    → String
    → Disk
    → UpdateJournal
    → Type 0
Intent sha b s h had_web installed target d j =
    (admission : Bool) × (original_admission had_web h.web_status ≡ some admission)
    × (j ≡ intent_of had_web installed target admission (sha b) (sha s))
    × (d.journal ≡ holds j)
    × (d.good_binary ≡ some b)
    × (d.good_config ≡ some s)

module _ (sha : String → String) (b s : String) (staged : Option String) (h : PrepareHost)
    (had_web : Bool) (installed target : String) where
  abbrev pub Prepared : Course × Option UpdateJournal → Type 0
  Prepared (c, journal) =
      Held (Safe sha b s staged) c
      × (c.disk.binary ≡ some b)
      × (c.disk.config ≡ some s)
      × ((j : UpdateJournal)
          → journal ≡ some j
          → Intent sha b s h had_web installed target c.disk j)

  write_intent :
      (c : Course) (admission : Bool)
      → original_admission had_web h.web_status ≡ some admission
      → check_update_journal c.disk.journal ≡ true
      → c.disk.binary ≡ some b
      → c.disk.config ≡ some s
      → c.disk.good_binary ≡ some b
      → c.disk.good_config ≡ some s
      → Held (Safe sha b s staged) c
      → let j = intent_of had_web installed target admission (sha b) (sha s) in
        let (c', ok) = write_update_journal h.intent j c in
        Prepared (c', if ok then some j else none)
  unfolding write_update_journal write_atomic store
  write_intent c admission known closed is_b is_s good_b good_s held =
      let j = intent_of had_web installed target admission (sha b) (sha s) in
      let now : Safe sha b s staged c.disk = inr (closed, inl (is_b, is_s)) in
      let past = All-append_one (Safe sha b s staged) c.past c.disk held.0 now in
      let active : Safe sha b s staged (record c.disk { journal = holds j }) =
        inl (j, refl, (refl, refl, refl, good_b, good_s, refl, refl)) in
      elim (write_atomic_cases h.intent (holds j) c.disk.journal) [
        | inl early ↦ rw early ((past, now), is_b, is_s, λ k e. ground arith)
        | inr (inl late) ↦ rw late ((past, active), is_b, is_s, λ k e. ground arith)
        | inr (inr written) ↦ rw written (
          (past, active),
          is_b,
          is_s,
          λ k e.
              let same : j ≡ k = some-injective j k e in
              (admission, known, sym same, ap holds same, good_b, good_s),
        )
      ]

  pub prepare-Prepared :
      (c : Course)
      → c.disk.binary ≡ some b
      → c.disk.config ≡ some s
      → check_update_journal c.disk.journal ≡ true
      → Held (Safe sha b s staged) c
      → Prepared (prepare_update_journal sha h had_web installed target c)
  unfolding prepare_update_journal store
  prepare-Prepared c is_b is_s closed held =
      let P = Prepared in
      let safe : (d : Disk)
          → d.journal ≡ c.disk.journal
          → d.binary ≡ c.disk.binary
          → d.config ≡ c.disk.config
          → Safe sha b s staged d =
        λ d e f g. inr (rw e closed, inl (f ∙ is_b, g ∙ is_s)) in
      let bin = save_verified_copy sha h.binary_copy c.disk.binary c.disk.good_binary in
      let d1 = record c.disk { good_binary = bin.0 } in
      let c1 = store d1 c in
      let held1 : Held (Safe sha b s staged) c1 =
        store-Held (Safe sha b s staged) d1 c (safe d1 refl refl refl) held in
      let conf = save_verified_copy sha h.config_copy c.disk.config c.disk.good_config in
      let d2 = record d1 { good_config = conf.0 } in
      let c2 = store d2 c1 in
      let held2 : Held (Safe sha b s staged) c2 =
        store-Held (Safe sha b s staged) d2 c1 (safe d2 refl refl refl) held1 in
      let stop : (c' : Course)
          → c'.disk.binary ≡ some b
          → c'.disk.config ≡ some s
          → Held (Safe sha b s staged) c'
          → P (c', none) =
        λ c' e f held'. (held', e, f, λ j none_some. ground arith) in
      if_both P (not (check_update_journal c.disk.journal) || not h.mkdir) (stop c is_b is_s held) (
        option_when P (original_admission had_web h.web_status) (λ e. stop c is_b is_s held)
          (λ admission known.
            option_when P bin.1 (λ e. stop c1 is_b is_s held1)
              (λ b_sum is_sum.
                let (good_b, sum_b) =
                  copy_of sha h.binary_copy b b_sum c.disk.binary c.disk.good_binary is_b is_sum in
                option_when P conf.1 (λ e. stop c2 is_b is_s held2)
                  (λ s_sum is_sum'.
                    let (good_s, sum_s) =
                      copy_of sha h.config_copy s s_sum c.disk.config c.disk.good_config is_s
                        is_sum' in
                    rw (sum_b, sum_s)
                      (write_intent c2 admission known closed is_b is_s good_b good_s held2)))))

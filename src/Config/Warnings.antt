-- ===== src/Config/Warnings.antt =====
-- internal/config/config.go: the Warnings of both configurations; the texts are left out.
use aerosmart_gateway.Base.{
  ◌≡◌, refl, Bool, true, false, Option, none, some, List, [], ◌∷◌, Bytes, codes, eq_bytes,
  if◌then◌else◌, All,
}
use aerosmart_gateway.Base.Int.{ℤ}
use aerosmart_gateway.Config.App.{AppConfig}
use aerosmart_gateway.Config.Types.{ReadRegister, WriteRegister, Registers}

-- A key that has no effect, or a write register, its state topic and the read register that owns it
pub data Note : Type 0 where
  no_effect no_longer_used : Bytes → Note
  shared_topic : (name topic owner : Bytes) → Note

-- `add`, over the keys of the settings that are not used any more, in the order of Warnings
unfoldable pub unused_notes : List (Bytes × Option ℤ) → List Note
unused_notes [] = []
unused_notes ((key, none) ∷ more) = unused_notes more
unused_notes ((key, some value) ∷ more) = no_longer_used key ∷ unused_notes more

unfoldable pub note_if : Bool → Note → List Note → List Note
note_if b note notes = if b then note ∷ notes else notes

-- Warnings of AppConfig
unfoldable pub app_warnings : AppConfig → List Note
unfolding unused_notes note_if
app_warnings c = note_if c.serial.xon_xoff (no_effect (codes "serial.xonxoff")) (
    note_if c.serial.dsr_dtr (no_effect (codes "serial.dsrdtr")) (unused_notes c.serial.deprecated))

module _ {F : Type 0} where
  -- `readTopics[topic]`: the last register that writes the key
  unfoldable pub topic_owner : Bytes → List (ReadRegister F) → Option Bytes
  topic_owner topic [] = none
  topic_owner topic (reg ∷ regs) = elim (topic_owner topic regs) [
    | some owner ↦ some owner
    | none ↦ if eq_bytes reg.topic topic then some reg.name else none
  ]

  unfoldable pub topic_notes : List (ReadRegister F) → List WriteRegister → List Note
  unfolding topic_owner
  topic_notes reads [] = []
  topic_notes reads (reg ∷ regs) =
      let rest = topic_notes reads regs in
      elim (topic_owner reg.topic reads) [
        | none ↦ rest
        | some owner ↦ shared_topic reg.name reg.topic owner ∷ rest
      ]

-- Warnings of RegistersConfig
unfoldable pub registers_warnings : {F : Type 0} → Registers F → List Note
unfolding topic_notes
registers_warnings r = topic_notes r.read_registers r.write_registers

no_owner :
    (later : Option Bytes) (here : Bool) (name : Bytes)
    → elim later as (λ _. Option Bytes) [
      | some owner ↦ some owner
      | none ↦ if here then some name else none
    ]
      ≡ none
    → (here ≡ false) × (later ≡ none)
no_owner none true name e = cc
no_owner none false name e = (refl, refl)
no_owner (some owner) here name e = cc

topic_owner-none :
    {F : Type 0} (topic : Bytes) (reads : List (ReadRegister F))
    → topic_owner topic reads ≡ none
    → All (λ reg. eq_bytes reg.topic topic ≡ false) reads
unfolding topic_owner
topic_owner-none topic [] e = tt
topic_owner-none topic (reg ∷ regs) e =
    let (here, later) = no_owner (topic_owner topic regs) (eq_bytes reg.topic topic) reg.name e in
    (here, topic_owner-none topic regs later)

no_note :
    (owner : Option Bytes) (name topic : Bytes) (rest : List Note)
    → elim owner as (λ _. List Note) [ none ↦ rest | some o ↦ shared_topic name topic o ∷ rest ]
      ≡ []
    → (owner ≡ none) × (rest ≡ [])
no_note none name topic rest e = (refl, e)
no_note (some o) name topic rest e = cc

topic_notes-nil :
    {F : Type 0} (reads : List (ReadRegister F)) (writes : List WriteRegister)
    → topic_notes reads writes ≡ []
    → All (λ write. All (λ read. eq_bytes read.topic write.topic ≡ false) reads) writes
unfolding topic_notes
topic_notes-nil reads [] e = tt
topic_notes-nil reads (reg ∷ regs) e =
    let (alone, more) =
      no_note (topic_owner reg.topic reads) reg.name reg.topic (topic_notes reads regs) e in
    (topic_owner-none reg.topic reads alone, topic_notes-nil reads regs more)

-- Without a warning, no write register publishes its state to the topic of a read register.
pub registers_warnings-nil :
    {F : Type 0} (r : Registers F)
    → registers_warnings r ≡ []
    → All
        (λ write. All (λ read. eq_bytes read.topic write.topic ≡ false) r.read_registers)
        r.write_registers
unfolding registers_warnings
registers_warnings-nil r e = topic_notes-nil r.read_registers r.write_registers e

-- ===== src/Nodes/Laws.antt =====
-- The commands of a client: the newest first, numbered without gaps.
use full_revna_like_projekt.Base.{
  ℕ, zero, suc, ◌<◌, ◌≡◌, ◌≢◌, refl, ◌∙◌, sym, ap, String, List, [], ◌∷◌, map, arith, All,
}
use full_revna_like_projekt.Base.Decimal.{to_text, to_text-injective}
use full_revna_like_projekt.Table.{Table, values, size, unshift}
use full_revna_like_projekt.Table.Laws.{Allocated, values-unshift, store-unshift, unshift-Allocated}
use full_revna_like_projekt.Types.Runtime.{NodeCommandRecord, NodeCommandCreateRequest}
use full_revna_like_projekt.Nodes.{queue_command, queued}
use Prim.Native.String
use text.Mathlib.TextLemmas.{append_cancel_left}

-- A new command stands on top of the others.
pub values-queue_command :
    (now node_id : String) (request : NodeCommandCreateRequest) (t : Table NodeCommandRecord)
    → Allocated t
    → values (queue_command now node_id request t) ≡ queued now node_id request t ∷ values t
unfolding queue_command queued
values-queue_command now node_id request t h =
    values-unshift _ t h ∙ ap (λ a. a ∷ values t) (sym (store-unshift _ t))

abbrev pub command_id : ℕ → String
command_id n = String.◌++◌ "cmd_" (to_text n)

-- The identifiers of `n` commands, the newest first: `cmd_n`, …, `cmd_1`.
abbrev pub command_ids : ℕ → List String
command_ids zero = []
command_ids (suc n) = command_id (suc n) ∷ command_ids n

-- The array of commands is numbered so, and its references are in use.
pub record Numbered (t : Table NodeCommandRecord) : Type 0 where
  pub allocated : Allocated t
  pub ids : map (λ command. command.id) (values t) ≡ command_ids (size t)

pub queued-id :
    (now node_id : String) (request : NodeCommandCreateRequest) (t : Table NodeCommandRecord)
    → (queued now node_id request t).id ≡ command_id (suc (size t))
unfolding queued queue_command
queued-id now node_id request t =
    ap (λ command. command.id) (store-unshift _ t) ∙ ap command_id (omega arith)

pub size-queue_command :
    (now node_id : String) (request : NodeCommandCreateRequest) (t : Table NodeCommandRecord)
    → size (queue_command now node_id request t) ≡ suc (size t)
unfolding queue_command unshift size
size-queue_command now node_id request t = refl

pub queue_command-Allocated :
    (now node_id : String) (request : NodeCommandCreateRequest) (t : Table NodeCommandRecord)
    → Allocated t
    → Allocated (queue_command now node_id request t)
unfolding queue_command
queue_command-Allocated now node_id request t = unshift-Allocated _ t

pub queue_command-Numbered :
    (now node_id : String) (request : NodeCommandCreateRequest) (t : Table NodeCommandRecord)
    → Numbered t
    → Numbered (queue_command now node_id request t)
queue_command-Numbered now node_id request t v = record {
  allocated = queue_command-Allocated now node_id request t v.allocated;
  ids =
      ap (map (λ command. command.id)) (values-queue_command now node_id request t v.allocated)
      ∙ ap (λ i. i ∷ map (λ command. command.id) (values t)) (queued-id now node_id request t)
      ∙ ap (λ is. command_id (suc (size t)) ∷ is) v.ids
      ∙ ap command_ids (sym (size-queue_command now node_id request t));
}

command_id-injective : (m n : ℕ) → command_id m ≡ command_id n → m ≡ n
command_id-injective m n e =
    to_text-injective m n (append_cancel_left "cmd_" (to_text m) (to_text n) e)

-- The identifiers of different commands differ.
pub command_ids-distinct : (n m : ℕ) → n < m → All (λ i. i ≢ command_id m) (command_ids n)
command_ids-distinct zero m h = tt
command_ids-distinct (suc n) m h = (
  λ e. absurd (omega (arith, command_id-injective (suc n) m e)),
  command_ids-distinct n m (omega arith),
)

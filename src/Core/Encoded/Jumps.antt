-- ===== src/Core/Encoded/Jumps.antt =====
-- The words that `finalize` of tools/asm_pineapple.py fills in, on the core of src/rv32i_core.v: a
-- branch or a JAL goes to the address of its label.
use agil_a.Common.{
  ℕ, ◌+◌, ◌*◌, ◌%◌, ◌<◌, ◌≡◌, ap, ◌∙◌, arith, true, some, List, String, ok, >>=-eq-ok, get_elem?,
  if◌then◌else◌,
}
use agil_a.Common.Int.{ℤ, sub_ℕ, mask, is_even}
use agil_a.Asm.Encode.{branch_word, jal_word}
use agil_a.Asm.State.{Asm, branch, jal, find_label}
use agil_a.Asm.Finalize.{resolve, label_at, in_range, finalize}
use agil_a.Asm.Finalize.Refines.{Item, pending, Builds}
use agil_a.Asm.Finalize.Indices.{nth-finalize}
use agil_a.Core.Alu.{branch_cond}
use agil_a.Core.Exec.{Core, Bus, reg, set_reg, exec}
use agil_a.Core.Encoded.Formats.{exec_branch, exec_jal}

-- The low byte of an offset, added to the low byte of where it counts from, gives that of the end;
-- an even offset has an even mask.
branch_offset :
    (at here : ℕ)
    → is_even (sub_ℕ at here) ≡ true
    → ((here % 256 + mask 13 (sub_ℕ at here) % 256) % 256 ≡ at % 256)
      × (mask 13 (sub_ℕ at here) % 2 ≡ 0)
unfolding mask
branch_offset at here even = ground arith

jal_offset :
    (at here : ℕ)
    → is_even (sub_ℕ at here) ≡ true
    → ((here % 256 + mask 21 (sub_ℕ at here) % 256) % 256 ≡ at % 256)
      × (mask 21 (sub_ℕ at here) % 2 ≡ 0)
unfolding mask
jal_offset at here even = ground arith

-- The assertion of `finalize` on an offset holds only of an even one.
in_range-even : (limit : ℕ) (off : ℤ) (u : Unit) → in_range limit off ≡ ok u → is_even off ≡ true
in_range-even limit off u h = ground arith

-- A resolved fixup has its label in the dictionary, and its word comes from an even offset.
resolve-branch :
    (labels : List (String × ℕ)) (base idx funct3 rs1 rs2 w : ℕ) (target : String)
    → resolve labels base idx (branch funct3 rs1 rs2 target) ≡ ok w
    → (at : ℕ) × (label_at target labels ≡ ok at)
      × (w ≡ branch_word funct3 rs1 rs2 (sub_ℕ at (base + idx * 4)))
      × (is_even (sub_ℕ at (base + idx * 4)) ≡ true)
unfolding resolve
resolve-branch labels base idx funct3 rs1 rs2 w target h =
    let (at, found, rest) = >>=-eq-ok (label_at target labels) _ h in
    let off = sub_ℕ at (base + idx * 4) in
    let (u, fits, e) = >>=-eq-ok (in_range 4096 off) _ rest in
    (at, found, cc, in_range-even 4096 off u fits)

resolve-jal :
    (labels : List (String × ℕ)) (base idx rd w : ℕ) (target : String)
    → resolve labels base idx (jal rd target) ≡ ok w
    → (at : ℕ) × (label_at target labels ≡ ok at)
      × (w ≡ jal_word rd (sub_ℕ at (base + idx * 4)))
      × (is_even (sub_ℕ at (base + idx * 4)) ≡ true)
unfolding resolve
resolve-jal labels base idx rd w target h =
    let (at, found, rest) = >>=-eq-ok (label_at target labels) _ h in
    let off = sub_ℕ at (base + idx * 4) in
    let (u, fits, e) = >>=-eq-ok (in_range 1048576 off) _ rest in
    (at, found, cc, in_range-even 1048576 off u fits)

label_at-find :
    (target : String) (labels : List (String × ℕ)) (at : ℕ)
    → label_at target labels ≡ ok at
    → find_label target labels ≡ some at
unfolding label_at
label_at-find target labels at h = ground arith

module _ {M : Type 0} (bus : Bus M) (c : Core) (m : M) (base : ℕ) (a : Asm) (items : List Item)
    (ws : List ℕ) (built : Builds base a items) (returned : finalize a ≡ ok ws) (i : ℕ)
    (here : c.pc ≡ (base + i * 4) % 256) where
  -- A branch that a method emitted as item `i`: the word that `finalize` puts there, executed from
  -- its own address, goes to the address of the label if the core's condition holds of the two
  -- registers, and on to the next word if not. Nothing else changes. All mod 256, as the pc is.
  pub exec-branch_label :
      (funct3 rs1 rs2 : ℕ) (target : String)
      → funct3 < 8
      → rs1 < 32
      → rs2 < 32
      → get_elem? items i ≡ some (pending (branch funct3 rs1 rs2 target))
      → (w at : ℕ) × (get_elem? ws i ≡ some w)
        × (find_label target a.labels ≡ some at)
        × (exec bus w c m ≡ (
          record c {
            pc = if branch_cond funct3 (reg c rs1) (reg c rs2) then at % 256 else (c.pc + 4) % 256;
          },
          m,
        ))
  exec-branch_label funct3 rs1 rs2 target h3 h1 h2 e =
      let (w, stands, is) = (nth-finalize base a items ws built returned).1 i _ e in
      let (at, found, word, even) = resolve-branch a.labels base i funct3 rs1 rs2 w target is in
      let off = sub_ℕ at (base + i * 4) in
      let (lands, low) = branch_offset at (base + i * 4) even in
      let lands' : (c.pc + mask 13 off % 256) % 256 ≡ at % 256 = omega (arith, lands, here) in
      (
        w,
        at,
        stands,
        label_at-find target a.labels at found,
        ap (λ (v : ℕ). exec bus v c m) word
            ∙ rw (exec_branch bus c m funct3 rs1 rs2 off h1 h2 h3 low, lands'),
      )

  -- A JAL that a method emitted as item `i`: the word that `finalize` puts there, executed from its
  -- own address, goes to the address of the label and leaves the return address in rd, and nothing
  -- else changes. All mod 256, as the pc is.
  pub exec-jal_label :
      (rd : ℕ) (target : String)
      → rd < 32
      → get_elem? items i ≡ some (pending (jal rd target))
      → (w at : ℕ) × (get_elem? ws i ≡ some w)
        × (find_label target a.labels ≡ some at)
        × (exec bus w c m ≡ (record (set_reg c rd (c.pc + 4)) { pc = at % 256 }, m))
  exec-jal_label rd target hd e =
      let (w, stands, is) = (nth-finalize base a items ws built returned).1 i _ e in
      let (at, found, word, even) = resolve-jal a.labels base i rd w target is in
      let off = sub_ℕ at (base + i * 4) in
      let (lands, low) = jal_offset at (base + i * 4) even in
      let lands' : (c.pc + mask 21 off % 256) % 256 ≡ at % 256 = omega (arith, lands, here) in
      (
        w,
        at,
        stands,
        label_at-find target a.labels at found,
        ap (λ (v : ℕ). exec bus v c m) word ∙ rw (exec_jal bus c m rd off hd low, lands'),
      )

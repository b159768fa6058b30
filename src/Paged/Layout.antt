-- ===== src/Paged/Layout.antt =====
-- The layout that `switch_to` and `switch_to_computed` of tools/asm_pineapple.py give a page.
use agil_a.Common.{
  ℕ, zero, suc, ◌+◌, ◌-◌, ◌*◌, ◌%◌, ◌≤◌, ◌<◌, ◌≡◌, refl, subst, arith, none, some, List, [], ◌∷◌,
  ◌++◌, append_assoc, append-nil, ok, err, assertion_error, true, ◌>>=◌, ◌>>◌, assert, length,
  length-append, replicate, ◌==◌, if◌then◌else◌, lt→ltb, ge→ltb, le→leb, gt→leb,
}
use agil_a.Common.Int.{ℤ, pos, neg, sub_ℕ, ◌-ℤ◌, ltb_ℤ, eq_ℤ}
use agil_a.Asm.Encode.{word, addi, sw, jal_word}
use agil_a.Asm.State.{Asm, asm, addr, emit}
use agil_a.Asm.Finalize.{in_range, finalize}
use agil_a.Asm.Finalize.Refines.{Item, done, Builds, emitted}
use agil_a.Asm.Bytes.{words_to_bytes}
use agil_a.Paged.State.{
  PagedAsm, bytes_used, pad, pad_to, emit_trampoline, finish_current_page, close_page,
}

abbrev pub nop : ℕ
nop = word (addi 0 0 (pos 0))

-- The jump from the last word of a window back to its first.
abbrev pub trampoline : ℕ → ℕ
trampoline window = jal_word 0 (neg (window - 4))

-- A page under construction that holds `items`, in a window that is a whole number of words, with
-- room for the closing words, and within the reach of a JAL.
pub record IsOpen (p : PagedAsm) (items : List Item) : Type 0 where
  pub room : 12 ≤ p.window_bytes
  pub aligned : p.window_bytes % 4 ≡ 0
  pub near : p.window_bytes < 1048576
  pub switch_at : p.switch_offset ≡ pos (p.window_bytes - 8)
  pub trampoline_at : p.trampoline_offset ≡ pos (p.window_bytes - 4)
  pub built : Builds p.load_base p.cur items

-- `n` finished words after what `a` holds.
abbrev pub emit_all : List ℕ → Asm → Asm
emit_all [] a = a
emit_all (w ∷ ws) a = emit_all ws (emit (some w) none a)

abbrev pub finished : List ℕ → List Item
finished [] = []
finished (w ∷ ws) = done w ∷ finished ws

pub emit_all-Builds :
    (base : ℕ) (ws : List ℕ) (a : Asm) (items : List Item)
    → Builds base a items
    → Builds base (emit_all ws a) (items ++ finished ws)
emit_all-Builds base [] a items h = rw append-nil h
emit_all-Builds base (w ∷ ws) a items h =
    subst (Builds base (emit_all ws (emit (some w) none a)))
      (append_assoc items (done w ∷ []) (finished ws))
      (emit_all-Builds base ws (emit (some w) none a) (items ++ done w ∷ []) (emitted w h))

-- `a` holds `n` words that begin at `base`.
abbrev pub Holds : ℕ → ℕ → Asm → Type 0
Holds base n a = (length a.instrs ≡ n) × (a.base ≡ base)

pub emit-Holds :
    (base n w : ℕ) (a : Asm) → Holds base n a → Holds base (suc n) (emit (some w) none a)
unfolding emit
emit-Holds base n w a (e, b) = (omega (arith, length-append {0} a.instrs (some w ∷ [])), b)

pub bytes_used-Holds : (p : PagedAsm) (base n : ℕ) → Holds base n p.cur → bytes_used p ≡ n * 4
unfolding bytes_used
bytes_used-Holds p base n (e, b) = omega (arith, e, b)

abbrev pub with_cur : PagedAsm → Asm → PagedAsm
with_cur p a = record p { cur = a }

pub pad-suc :
    (fuel : ℕ) (target : ℤ) (p : PagedAsm)
    → pad (suc fuel) target p ≡ (
        if ltb_ℤ (pos (bytes_used p)) target
        then pad fuel target (with_cur p (emit (some nop) none p.cur))
        else ok p)
unfolding pad
pad-suc fuel target p = refl

-- `_pad_to` fills up to the target with NOPs.
pad-replicate :
    (fuel k n base : ℕ) (p : PagedAsm)
    → Holds base n p.cur
    → k ≤ fuel
    → pad fuel (pos ((n + k) * 4)) p ≡ ok (with_cur p (emit_all (replicate k nop) p.cur))
pad-replicate zero zero n base p h le = unfold pad in refl
pad-replicate zero (suc k) n base p h le = absurd (omega arith)
pad-replicate (suc fuel) zero n base p h le =
    rw (pad-suc, bytes_used-Holds p base n h, ge→ltb (n * 4 + 0) ((n + 0) * 4 + 0) (omega arith))
pad-replicate (suc fuel) (suc k) n base p h le =
    let shift : (n + suc k) * 4 ≡ (suc n + k) * 4 = omega arith in
    rw
      (
        pad-suc,
        bytes_used-Holds p base n h,
        lt→ltb (n * 4 + 0) ((n + suc k) * 4 + 0) (omega arith),
        shift,
      )
      (pad-replicate fuel k (suc n) base (with_cur p (emit (some nop) none p.cur))
        (emit-Holds base n nop p.cur h) (omega arith))

pub pad_to-replicate :
    (k n base : ℕ) (target : ℤ) (p : PagedAsm)
    → target ≡ pos ((n + k) * 4)
    → Holds base n p.cur
    → pad_to target p ≡ ok (with_cur p (emit_all (replicate k nop) p.cur))
unfolding pad_to
pad_to-replicate k n base target p e h =
    rw (e, bytes_used-Holds p base n h, le→leb (n * 4 + 0) ((n + k) * 4 + 0) (omega arith))
      (pad-replicate ((n + k) * 4) k n base p h (omega arith))

-- Code that has passed the target is refused.
pub pad_to-full :
    (n base t : ℕ) (target : ℤ) (p : PagedAsm)
    → target ≡ pos t
    → t < n * 4
    → Holds base n p.cur
    → pad_to target p ≡ err assertion_error
unfolding pad_to
pad_to-full n base t target p e lt h =
    rw (e, bytes_used-Holds p base n h, gt→leb (n * 4 + 0) (t + 0) (omega arith))

pub emit_trampoline-do :
    (p : PagedAsm)
    → let off = sub_ℕ p.load_base (addr p.cur) in
      emit_trampoline p ≡ (
        assert (eq_ℤ off (pos 0 -ℤ p.trampoline_offset))
        >> (in_range 1048576 off >> ok (with_cur p (emit (some (jal_word 0 off)) none p.cur))))
unfolding emit_trampoline
emit_trampoline-do p = refl

-- The offset back to the first word passes the assertions.
back_passes :
    (t : ℕ)
    → t % 4 ≡ 0
    → t < 1048576
    → (eq_ℤ (neg t) (pos 0 -ℤ pos t) ≡ true) × (in_range 1048576 (neg t) ≡ ok tt)
unfolding ◌-ℤ◌
back_passes t aligned near = (ground arith, ground arith)

-- The trampoline goes from the last word of the window to its first, whatever the page.
pub emit_trampoline-word :
    (p : PagedAsm) (n : ℕ)
    → Holds p.load_base n p.cur
    → n * 4 + 4 ≡ p.window_bytes
    → p.window_bytes < 1048576
    → p.trampoline_offset ≡ pos (p.window_bytes - 4)
    → emit_trampoline p ≡ ok (with_cur p (emit (some (trampoline p.window_bytes)) none p.cur))
emit_trampoline-word p n (e, b) last near at =
    let t = p.window_bytes - 4 in
    let here : addr p.cur ≡ p.load_base + t = unfold addr in omega (arith, e, b) in
    let off : sub_ℕ p.load_base (p.load_base + t) ≡ neg t = ground arith in
    let (same, reach) = back_passes t (omega arith) (omega arith) in
    rw (emit_trampoline-do, here, off, at, same, reach)

pub finish-do :
    (p : PagedAsm)
    → finish_current_page p ≡ (
        finalize p.cur >>= λ words. words_to_bytes words >>= λ bytes.
        assert (length bytes == p.window_bytes)
        >> ok (record p {
          pages = p.pages ++ bytes ∷ [];
          cur_page_num = suc p.cur_page_num;
          cur = asm p.load_base;
        }))
unfolding finish_current_page
finish-do p = refl

pub close-do :
    (scratch : ℕ) (p : PagedAsm)
    → close_page scratch p ≡ (
        assert (eq_ℤ (pos (bytes_used p)) p.switch_offset)
        >> (emit_trampoline
              (with_cur p (emit (some (word (sw scratch 0 (pos p.flash_page_addr)))) none p.cur))
            >>= finish_current_page))
unfolding close_page
close-do scratch p = refl

-- The state after a page of the given bytes has been finished.
abbrev pub next_page : PagedAsm → List ℕ → PagedAsm
next_page p bytes = record p {
  pages = p.pages ++ bytes ∷ [];
  cur_page_num = suc p.cur_page_num;
  cur = asm p.load_base;
}

-- The words that close every page.
abbrev pub closing : PagedAsm → ℕ → List ℕ
closing p scratch = word (sw scratch 0 (pos p.flash_page_addr)) ∷ trampoline p.window_bytes ∷ []

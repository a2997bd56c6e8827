-- ===== src/Cpu/Fault.antt =====
-- `fault_handler` of src/idt.c: the report on an exception of the processor.
use saxon_os.Prelude.{
  ℕ, ◌^◌, ◌≡◌, ◌<◌, ◌∙◌, refl, ap, arith, ltb, ◌==◌, if◌then◌else◌, Bool-cases, inl, inr, false,
  List, [], ◌∷◌, ◌++◌,
}
use saxon_os.Terminal.{Terminal, terminal_write, terminal_printhex, terminal_printhex32}
use saxon_os.Terminal.Hex.{
  hex_digits, printhex-hex_digits, terminal_printhex32-hex_digits, terminal_write-append,
}

-- What the handler leaves the screen as, and whether it returns or stays in `for (;;)`.
pub data Report : Type 0 where
  returned : Terminal → Report
  stopped : Terminal → Report

-- `"PROBLEM"`
abbrev pub problem : List ℕ
problem = b'P' ∷ b'R' ∷ b'O' ∷ b'B' ∷ b'L' ∷ b'E' ∷ b'M' ∷ []

-- `"Page fault"`
abbrev pub page_fault : List ℕ
page_fault = b'P' ∷ b'a' ∷ b'g' ∷ b'e' ∷ b' ' ∷ b'f' ∷ b'a' ∷ b'u' ∷ b'l' ∷ b't' ∷ []

-- `"General protection fault"`
abbrev pub protection_fault : List ℕ
protection_fault =
    b'G' ∷ b'e' ∷ b'n' ∷ b'e' ∷ b'r' ∷ b'a' ∷ b'l' ∷ b' ' ∷ b'p' ∷ b'r' ∷ b'o' ∷ b't' ∷ b'e' ∷ b'c'
    ∷ b't' ∷ b'i' ∷ b'o' ∷ b'n' ∷ b' ' ∷ b'f' ∷ b'a' ∷ b'u' ∷ b'l' ∷ b't' ∷ []

-- `"Bad TSS"`
abbrev pub bad_tss : List ℕ
bad_tss = b'B' ∷ b'a' ∷ b'd' ∷ b' ' ∷ b'T' ∷ b'S' ∷ b'S' ∷ []

-- `cr2` is what the processor's register holds, `int_no` and `eip` are the fields of `r`.
pub fault_handler : (cr2 int_no eip : ℕ) → Terminal → Report
fault_handler cr2 int_no eip t =
    let t1 = terminal_printhex int_no (terminal_write problem t) in
    let t2 =
      if int_no == 0x0E then terminal_printhex32 cr2 (terminal_write page_fault t1) else t1 in
    let t3 =
      if int_no == 0x0D then terminal_printhex32 eip (terminal_write protection_fault t2) else t2 in
    let t4 = if int_no == 0xA0 then terminal_write bad_tss t3 else t3 in
    if ltb int_no 32 then stopped t4 else returned t

-- What the screen gets for an exception, behind its number.
pub details : (cr2 int_no eip : ℕ) → List ℕ
details cr2 int_no eip =
    if int_no == 0x0E
    then page_fault ++ hex_digits 8 cr2
    else if int_no == 0x0D
    then protection_fault ++ hex_digits 8 eip
    else []

-- An address behind a text.
address_after :
    (xs ys : List ℕ) (k : ℕ) (t : Terminal)
    → k < 2 ^ 32
    → terminal_printhex32 k (terminal_write ys (terminal_write xs t))
      ≡ terminal_write (xs ++ (ys ++ hex_digits 8 k)) t
address_after xs ys k t h =
    (terminal_printhex32-hex_digits k _ h).0
    ∙ terminal_write-append ys (hex_digits 8 k) (terminal_write xs t)
    ∙ terminal_write-append xs (ys ++ hex_digits 8 k) t

number_after :
    (n : ℕ) (t : Terminal)
    → n < 2 ^ 8
    → terminal_printhex n (terminal_write problem t) ≡ terminal_write (problem ++ hex_digits 2 n) t
number_after n t h =
    printhex-hex_digits n (terminal_write problem t) h
    ∙ terminal_write-append problem (hex_digits 2 n) t

-- For 32-bit `cr2` and `eip` and an exception, a number below 32, `fault_handler` prints the word
-- and the number's two digits, for a page fault also the eight digits of `cr2` and for a protection
-- fault those of `eip`, each behind its text, nothing else, and never returns. For any other number
-- it returns with the screen unchanged.
pub fault_handler-details :
    (cr2 int_no eip : ℕ) (t : Terminal)
    → cr2 < 2 ^ 32
    → eip < 2 ^ 32
    → fault_handler cr2 int_no eip t ≡ (
        if ltb int_no 32
        then stopped (terminal_write (problem ++ hex_digits 2 int_no ++ details cr2 int_no eip) t)
        else returned t)
unfolding fault_handler details
fault_handler-details cr2 int_no eip t c e = elim (Bool-cases (ltb int_no 32)) [
  | inr other ↦ rw other refl
  | inl exception ↦
      let number : terminal_printhex int_no (terminal_write problem t)
          ≡ terminal_write (problem ++ hex_digits 2 int_no) t =
        number_after int_no t (ground arith) in
      let no_tss : (int_no == 0xA0) ≡ false = ground arith in
      elim (Bool-cases (int_no == 0x0E)) [
        | inl page ↦
            let not_13 : (int_no == 0x0D) ≡ false = ground arith in
            rw (exception, no_tss, not_13, page, number)
              (ap stopped (address_after (problem ++ hex_digits 2 int_no) page_fault cr2 t c))
        | inr no_page ↦ elim (Bool-cases (int_no == 0x0D)) [
          | inl protection ↦
              rw (exception, no_tss, no_page, protection, number)
                (ap stopped
                  (address_after (problem ++ hex_digits 2 int_no) protection_fault eip t e))
          | inr no_protection ↦ rw (exception, no_tss, no_page, no_protection, number) refl
        ]
      ]
]

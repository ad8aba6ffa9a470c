-- ===== src/ClientNode/Site.antt =====
-- jni/yftp/client_node.cpp: `process_site_cmd`, which the switch of `process_command` does not call.
use yftpserver.Prelude.{
  ℕ, ◌≡◌, ◌≢◌, refl, inl, inr, true, WString, Bytes, Option, none, some, if◌then◌else◌, Bool-cases,
  ltb, ◌==◌, is_empty, length, take, drop, lit, text_eq, text_eq_iff, arith, bit_and, Outcome, ok,
  fault,
}
use yftpserver.Platform.{Platform}
use yftpserver.Conversion.{ws2s_result}
use yftpserver.UserNode.{UserNode}
use yftpserver.ClientNode.{Turn, answer}

-- `ftp_extra_cmd::extracmd_exec`.
abbrev pub extracmd_exec : ℕ
extracmd_exec = 1

may :
    (u : UserNode)
    → (bit_and u.extra_cmd extracmd_exec == extracmd_exec) ≡ true
    → bit_and u.extra_cmd extracmd_exec ≡ extracmd_exec
may u h = ground arith

module _ {F : Type 0} ⦃p : Platform⦄ (system : Bytes → F → F) where
  -- `SITE EXEC`, with what `system` of the C library does.
  unfoldable pub site_exec : UserNode → WString → Turn F → Turn F
  site_exec u cmd_arg t =
      let executed = record t {
        system = system (ws2s_result p.c_library (drop 5 cmd_arg)) t.system;
      } in
      if bit_and u.extra_cmd extracmd_exec == extracmd_exec
      then answer 200 "SITE EXEC Successful." (if ltb 5 (length cmd_arg) then executed else t)
      else answer 550 "Permission denied." t

  -- The account that the client points at must be there.
  unfoldable pub process_site_cmd : Option UserNode → WString → Turn F → Outcome (Turn F)
  process_site_cmd user cmd_arg t =
      if is_empty cmd_arg then ok (answer 501 "Syntax error in arguments." t) else elim user [
        | none ↦ fault
        | some u ↦ ok (if text_eq (take 5 cmd_arg) (lit "EXEC ") then site_exec u cmd_arg t else t)
      ]

  -- SITE returns where the client points at an account. The world outside changes only by the command
  -- behind EXEC, and only if the account may execute commands; of the client nothing changes.
  pub process_site_cmd_safe :
      (u : UserNode) (cmd_arg : WString) (t : Turn F)
      → (s : Turn F) × (process_site_cmd (some u) cmd_arg t ≡ ok s)
        × (s.client ≡ t.client)
        × (s.system ≢ t.system
            → (bit_and u.extra_cmd extracmd_exec ≡ extracmd_exec)
              × (take 5 cmd_arg ≡ lit "EXEC ")
              × (s.system ≡ system (ws2s_result p.c_library (drop 5 cmd_arg)) t.system))
  unfolding process_site_cmd site_exec
  process_site_cmd_safe u cmd_arg t = elim (Bool-cases (is_empty cmd_arg)) [
    | inl e ↦ rw e (_, refl, refl, λ changed. absurd (changed refl))
    | inr e ↦ elim (Bool-cases (text_eq (take 5 cmd_arg) (lit "EXEC "))) [
      | inr other ↦ rw (e, other) (_, refl, refl, λ changed. absurd (changed refl))
      | inl exec ↦ elim (Bool-cases (bit_and u.extra_cmd extracmd_exec == extracmd_exec)) [
        | inr denied ↦ rw (e, exec, denied) (_, refl, refl, λ changed. absurd (changed refl))
        | inl allowed ↦ elim (Bool-cases (ltb 5 (length cmd_arg))) [
          | inr bare ↦ rw (e, exec, allowed, bare) (_, refl, refl, λ changed. absurd (changed refl))
          | inl more ↦
              rw (e, exec, allowed, more)
                (_, refl, refl, λ changed. (may u allowed, (text_eq_iff _ _).0 exec, refl))
        ]
      ]
    ]
  ]

-- ===== src/FtpServer/Access.antt =====
-- What a connection that has not logged in can make the server do.
use yftpserver.Prelude.{◌≡◌, ◌⊎◌, [], Outcome, ok, fault, thrown, running}
use yftpserver.Platform.{Platform}
use yftpserver.FileSystem.{FileSystem}
use yftpserver.Network.{Network}
use yftpserver.Reply.{Reply}
use yftpserver.Commands.{Commands}
use yftpserver.RequestParser.{RequestParser}
use yftpserver.FtpServer.{Served}

module _ {F : Type 0} ⦃p : Platform⦄ ⦃os : FileSystem F⦄ ⦃net : Network F⦄ where
  -- The world outside is as it was, but for a TLS handshake, and no thread was started.
  abbrev pub IsHarmless : F → Served F → Type 0
  IsHarmless sys s =
      ((s.world.system ≡ sys) ⊎ (s.world.system ≡ net.ctrl_handshake sys)) × (s.started ≡ [])

  -- A command that returns harmlessly, or a line that is not UTF-8: no null pointer, no endless loop.
  abbrev pub EndsHarmless : F → Outcome (Served F) → Type 0
  EndsHarmless sys (ok s) = IsHarmless sys s
  EndsHarmless sys thrown = Unit
  EndsHarmless sys fault = ⊥
  EndsHarmless sys running = ⊥

-- ===== src/Network.antt =====
-- What a client node asks of boost::asio, over the states `F` of the world outside the program: a
-- parameter of the model. A call answers whether it set no `error_code`.
use yftpserver.Prelude.{Bytes, ℕ, ◌≡◌, Bool, true, false, Option, none, some}

-- What `read_some` gives: bytes, the end of the connection, or another error.
pub data Received : Type 0 where
  received : Bytes → Received
  end_of_stream failed : Received

pub record Network (F : Type 0) : Type 0 where
  -- The control connection: the two IPv4 addresses of a socket, and TLS.
  pub local_ip : ℕ → F → ℕ
  pub remote_ip : ℕ → F → ℕ
  pub ctrl_is_ssl : F → Bool
  pub ctrl_handshake : F → F
  -- The acceptor of passive mode.
  pub open_acceptor : F → F × Bool
  -- `bind` to an address and a port, and `listen`.
  pub bind_listen : ℕ → ℕ → F → F × Bool
  pub local_port : F → ℕ
  pub accept : F → F × Bool
  pub close_acceptor : F → F
  -- The data connection.
  pub open_data : F → F × Bool
  pub connect : ℕ → ℕ → F → F × Bool
  pub data_handshake : F → F × Bool
  pub shut_down_data : F → F
  pub close_data : F → F
  -- Whether a new thread is joinable.
  pub start_thread : F → F × Bool
  -- Whether a write to the control connection succeeds.
  pub ctrl_write : F → Bool
  -- A read of at most so many bytes from the data connection, and a write to it.
  pub data_read : ℕ → F → F × Received
  pub data_write : Bytes → F → F × Bool

-- What the server asks of its own acceptor. `endpoint` is the address and the port at which the acceptor
-- listens, `bound` those to which it was bound last.
pub record Acceptor (F : Type 0) : Type 0 where
  pub open_socket : F → F × Bool
  pub reuse_address : F → F × Bool
  pub bind : ℕ → ℕ → F → F × Bool
  pub listen : F → F × Bool
  pub is_open : F → Bool
  pub cancel : F → F
  pub close : F → F × Bool
  pub endpoint : F → Option (ℕ × ℕ)
  pub bound : F → ℕ × ℕ

-- An acceptor listens where it was bound, from a successful `listen` to the next `close`, which closes
-- the descriptor also where it reports an error.
pub record ListensWhereBound {F : Type 0} (a : Acceptor F) : Type 0 where
  pub open_keeps : (sys : F) → a.endpoint (a.open_socket sys).0 ≡ a.endpoint sys
  pub reuse_keeps : (sys : F) → a.endpoint (a.reuse_address sys).0 ≡ a.endpoint sys
  pub bind_keeps : (addr port : ℕ) (sys : F) → a.endpoint (a.bind addr port sys).0 ≡ a.endpoint sys
  pub bind_binds :
      (addr port : ℕ) (sys : F)
      → (a.bind addr port sys).1 ≡ true
      → a.bound (a.bind addr port sys).0 ≡ (addr, port)
  pub listen_listens :
      (sys : F) → (a.listen sys).1 ≡ true → a.endpoint (a.listen sys).0 ≡ some (a.bound sys)
  pub listen_fails :
      (sys : F) → (a.listen sys).1 ≡ false → a.endpoint (a.listen sys).0 ≡ a.endpoint sys
  pub close_closes : (sys : F) → a.endpoint (a.close sys).0 ≡ none

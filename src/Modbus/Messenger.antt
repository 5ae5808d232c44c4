-- ===== src/Modbus/Messenger.antt =====
-- The connections of pkg/protocol/modbus/runtime/clients.go: the `Messenger` interface, `TcpClient`
-- and `SerialClient`. `W` is the state of the world outside: connections, ports and time. A
-- call gives the world after it and what it returns; the buffer that a call fills is passed and
-- given back.
pub mod Serial
pub mod Collect
use harns_gateway.Prelude.{
  ℕ, zero, suc, ◌+◌, List, [], ◌∷◌, Option, Bool, none, some, ◌==◌, leb, length, if◌then◌else◌,
}
use harns_gateway.Modbus.Types.{
  Error, modbus_bad_conn, message_data_length_not_enough, io_error, Result, ok, err, panic,
}

-- What a request leaves behind: the world, the response buffer, and the count of bytes or an error.
pub record Asked (W : Type 0) : Type 0 where
  pub world : W
  pub response : List ℕ
  pub result : Result ℕ

-- `Messenger`, with the function `NewMessenger` of `Clients`, whose connection takes the place of
-- the old one (`Reset`).
pub record Messenger (W : Type 0) : Type 0 where
  pub ask_at_least : W → List ℕ → List ℕ → ℕ → Asked W
  pub close : W → W
  pub renew : W → W × Result (Unit {0})

-- What `AskAtLeast` calls of a `net.Conn`: the write and the deadline succeed or not, and
-- `io.ReadAtLeast` with a buffer of a length gives the bytes read and whether there was no error.
pub record Tunnel (W : Type 0) : Type 0 where
  pub write : W → List ℕ → W × Bool
  pub set_read_deadline : W → ℕ → W × Bool
  pub read_at_least : W → ℕ → ℕ → W × List ℕ × Bool

-- A `serial.Port`: a read with a buffer of a length gives the bytes read, or `none` for an error.
pub record Port (W : Type 0) : Type 0 where
  pub write : W → List ℕ → W × Bool
  pub set_read_timeout : W → ℕ → W × Bool
  pub read : W → ℕ → W × Option (List ℕ)

-- Bytes stored in a buffer from a place on; what does not fit is left out.
unfoldable pub overwrite : List ℕ → ℕ → List ℕ → List ℕ
overwrite [] start bytes = []
overwrite (x ∷ buf) zero [] = x ∷ buf
overwrite (x ∷ buf) zero (b ∷ bytes) = b ∷ overwrite buf zero bytes
overwrite (x ∷ buf) (suc start) bytes = x ∷ overwrite buf start bytes

-- Whether the loop of `SerialClient.AskAtLeast` ends or goes on.
pub data Turn (W : Type 0) : Type 0 where
  stop : Asked W → Turn W
  go : W → List ℕ → ℕ → Turn W

module _ {W : Type 0} where
  -- `TcpClient.AskAtLeast`
  unfoldable pub tcp_ask_at_least : Tunnel W → ℕ → W → List ℕ → List ℕ → ℕ → Asked W
  tcp_ask_at_least tunnel timeout w request response min =
      let wrote = tunnel.write w request in
      if wrote.1
      then (let deadline = tunnel.set_read_deadline wrote.0 timeout in
          if deadline.1
          then (let got = tunnel.read_at_least deadline.0 (length response) min in
              record {
                world = got.0;
                response = overwrite response 0 got.1;
                result = if got.2 then ok (length got.1) else err io_error;
              })
          else record { world = deadline.0; response = response; result = err io_error })
      else record { world = wrote.0; response = response; result = err modbus_bad_conn }

  -- After the loop of `SerialClient.AskAtLeast`.
  unfoldable pub serial_done : W → List ℕ → ℕ → Asked W
  serial_done w response bytes_length = record {
    world = w;
    response = response;
    result =
        if length response == bytes_length
        then ok bytes_length
        else err message_data_length_not_enough;
  }

  -- One turn of the loop of `SerialClient.AskAtLeast`, where `current` is both `currentIndex` and
  -- `bytesLength`. An index past the end of the response panics, when the response is full.
  unfoldable pub serial_take : W → List ℕ → ℕ → List ℕ → Turn W
  serial_take w response current [] = stop (serial_done w response current)
  serial_take w response current (b ∷ bs) =
      let bytes_length = current + length (b ∷ bs) in
      let filled = overwrite response current (b ∷ bs) in
      if leb bytes_length (length response)
      then (if bytes_length == length response
          then stop (serial_done w filled bytes_length)
          else go w filled bytes_length)
      else stop (record { world = w; response = filled; result = panic })

  unfoldable pub serial_got : List ℕ → ℕ → W × Option (List ℕ) → Turn W
  serial_got response current (w, none) =
      stop (record { world = w; response = response; result = err io_error })
  serial_got response current (w, some bytes) = serial_take w response current bytes

  abbrev pub after_turn : (W → List ℕ → ℕ → Option (Asked W)) → Turn W → Option (Asked W)
  after_turn loop (stop asked) = some asked
  after_turn loop (go w response current) = loop w response current

  -- The loop. `none` is too little fuel.
  unfoldable pub serial_loop : Port W → ℕ → W → List ℕ → ℕ → Option (Asked W)
  serial_loop port zero w response current = none
  serial_loop port (suc fuel) w response current =
      after_turn (serial_loop port fuel) (serial_got response current (port.read w 256))

  -- `SerialClient.AskAtLeast`. Every turn that does not end it adds a byte, so one turn more than
  -- the response has bytes is enough.
  unfoldable pub serial_ask_at_least : Port W → ℕ → W → List ℕ → List ℕ → ℕ → Option (Asked W)
  serial_ask_at_least port timeout w request response min =
      let wrote = port.write w request in
      if wrote.1
      then (let deadline = port.set_read_timeout wrote.0 timeout in
          if deadline.1
          then serial_loop port (suc (length response)) deadline.0 response 0
          else some (record { world = deadline.0; response = response; result = err io_error }))
      else some (record { world = wrote.0; response = response; result = err modbus_bad_conn })

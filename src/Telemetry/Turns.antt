-- ===== src/Telemetry/Turns.antt =====
-- What `run` of forecasting/telemetry_collector.py leaves in the database.
use turbo_sh.Common.{
  ℕ, ◌≡◌, ◌≢◌, refl, sym, String, if◌then◌else◌, ap, ◌∙◌, List, [], ◌∷◌, ◌++◌, map, Bool, true,
  false, not, ◌&&◌, append-nil, append_assoc, Option, none, some, Float,
}
use mathlib.Core.List.{map-append}
use mathlib.Core.Path.{subst⁻¹}
use turbo_sh.NetworkState.{NetworkState}
use turbo_sh.Persistence.{Codec, Row, Sqlite, returned, raised, to_row}
use turbo_sh.Persistence.Flush.{IsDatabase, row_of}
use turbo_sh.Serialization.{Parser}
use turbo_sh.Telemetry.{
  World, Reader, Turn, Opening, waits, fails, reads, reader_of, readline, behind, is_none,
  line_state, append_state, flush_world, run_turns, run,
}
use turbo_sh.Telemetry.Ingestion.{
  states_of, settled, IsReady, append_state-settled, flush_world-settled, returned≢raised,
}

-- The states of the lines that `run` reads, in their order, and whether an `open` fails.
module _ {ℓ} {F J : Type ℓ} ⦃f : Float F⦄ (parser : Parser F J) (bytes : String → ℕ) where
  abbrev pub behind_states :
      Option (NetworkState F J) → List (NetworkState F J) × Bool → List (NetworkState F J) × Bool
  behind_states o (states, failed) = (states_of o ++ states, failed)

  unfoldable pub states_read : Bool → List (Turn F) → Option Reader → List (NetworkState F J) × Bool
  states_read follow [] reader = ([], false)
  states_read follow (turn ∷ turns) reader = elim (reader_of turn.at_path turn.opens reader) [
    | waits ↦ states_read follow turns none
    | fails ↦ ([], true)
    | reads r ↦ elim (is_none (readline turn r) && not follow) [
      | true ↦ ([], false)
      | false ↦
          behind_states (line_state parser (readline turn r))
            (states_read follow turns (some (behind bytes (readline turn r) r)))
    ]
  ]

module _ {ℓ} {F J D : Type ℓ} ⦃f : Float F⦄ (parser : Parser F J) (codec : Codec J)
    (sql : Sqlite (Row F) D) (bytes : String → ℕ) (laws : IsDatabase sql)
    (reliable : (db : D) (rs : List (Row F)) → sql.insert_all db rs ≢ none) where
  -- What a turn does with its line, from the end of the loop and the time of a flush.
  abbrev read_body :
      Bool
      → F
      → F
      → List (Turn F)
      → F
      → World F J D
      → Reader
      → Option String
      → Bool
      → Bool
      → World F J D × Bool
  read_body follow interval time turns last w r line stop due = elim stop [
    | true ↦ (w, false)
    | false ↦
        let r' : Option Reader = some (behind bytes line r) in
        let w' = append_state parser codec sql (line_state parser line) w in
        elim due [
          | false ↦ run_turns parser codec sql bytes follow interval turns r' last w'
          | true ↦
              let (w'', outcome) = flush_world parser codec sql w' in
              elim outcome [
                | raised ↦ (w'', true)
                | returned flushed ↦
                    run_turns parser codec sql bytes follow interval turns r' time w''
              ]
        ]
  ]

  abbrev read_states :
      Bool → List (Turn F) → Reader → Option String → Bool → List (NetworkState F J) × Bool
  read_states follow turns r line stop = elim stop [
    | true ↦ ([], false)
    | false ↦
        behind_states parser bytes (line_state parser line)
          (states_read parser bytes follow turns (some (behind bytes line r)))
  ]

  -- The world after some turns, which read some states.
  abbrev Settled : World F J D → List (NetworkState F J) → World F J D → Type ℓ
  Settled w states w' =
      IsReady w' × (settled codec sql w' ≡ settled codec sql w ++ map (to_row codec sql) states)

  Settled-append :
      (w w' w'' : World F J D) (xs ys : List (NetworkState F J))
      → Settled w xs w'
      → Settled w' ys w''
      → Settled w (xs ++ ys) w''
  Settled-append w w' w'' xs ys (_, first) (ready, second) = (
    ready,
    second
        ∙ ap (λ rs. rs ++ map (to_row codec sql) ys) first
        ∙ append_assoc (settled codec sql w) _ _
        ∙ ap (◌++◌ (settled codec sql w)) (sym (map-append (to_row codec sql) xs ys)),
  )

  -- The turns end as the states that they read and the failure of an `open` say.
  abbrev Ended : World F J D → List (NetworkState F J) × Bool → World F J D × Bool → Type ℓ
  Ended w (states, failed) (w', exception) = Settled w states w' × (exception ≡ failed)

  -- The turns that follow end so from every reader and world.
  abbrev Rest : Bool → F → List (Turn F) → Type ℓ
  Rest follow interval turns =
      (reader : Option Reader) (last : F) (w : World F J D)
      → IsReady w
      → Ended w (states_read parser bytes follow turns reader)
          (run_turns parser codec sql bytes follow interval turns reader last w)

  read_body-Ended :
      (follow : Bool) (interval time : F) (turns : List (Turn F)) (last : F) (w : World F J D)
      (r : Reader)
      → IsReady w
      → Rest follow interval turns
      → (line : Option String) (stop due : Bool)
      → Ended w
          (read_states follow turns r line stop)
          (read_body follow interval time turns last w r line stop due)
  read_body-Ended follow interval time turns last w r ready rest line true due =
      ((ready, sym (append-nil _)), refl)
  read_body-Ended follow interval time turns last w r ready rest line false false =
      let o = line_state parser line in
      let appended = append_state-settled parser codec sql laws reliable o w ready in
      let w' = append_state parser codec sql o w in
      let r' : Option Reader = some (behind bytes line r) in
      let (after, failed) = rest r' last w' appended.0 in
      (
        Settled-append w w' (run_turns parser codec sql bytes follow interval turns r' last w').0
            (states_of o) (states_read parser bytes follow turns r').0 appended after,
        failed,
      )
  read_body-Ended follow interval time turns last w r ready rest line false true =
      let o = line_state parser line in
      let appended = append_state-settled parser codec sql laws reliable o w ready in
      let w' = append_state parser codec sql o w in
      let (flushed_ready, same, empty, outcome) =
        flush_world-settled parser codec sql laws reliable w' appended.0 in
      let w'' = (flush_world parser codec sql w').0 in
      let r' : Option Reader = some (behind bytes line r) in
      let states = states_read parser bytes follow turns r' in
      let ((after_ready, after), failed) = rest r' time w'' flushed_ready in
      subst⁻¹
        (λ result. Ended w (behind_states parser bytes o states) (elim result [
          | raised ↦ (w'', true)
          | returned flushed ↦ run_turns parser codec sql bytes follow interval turns r' time w''
        ]))
        outcome
        (
          Settled-append w w' (run_turns parser codec sql bytes follow interval turns r' time w'').0
              (states_of o) states.0 appended
              (after_ready, after ∙ ap (λ rs. rs ++ map (to_row codec sql) states.0) same),
          failed,
        )

  turn-Ended :
      (follow : Bool) (interval : F) (turn : Turn F) (turns : List (Turn F)) (last : F)
      (w : World F J D)
      → IsReady w
      → Rest follow interval turns
      → (o : Opening)
      → Ended w
          (elim o [
            | waits ↦ states_read parser bytes follow turns none
            | fails ↦ ([], true)
            | reads r ↦
                read_states follow turns r
                  (readline turn r)
                  (is_none (readline turn r) && not follow)
          ])
          (elim o [
            | waits ↦ run_turns parser codec sql bytes follow interval turns none last w
            | fails ↦ (w, true)
            | reads r ↦
                read_body follow interval turn.time turns last w r
                  (readline turn r)
                  (is_none (readline turn r) && not follow)
                  (f.le interval (f.sub turn.time last))
          ])
  turn-Ended follow interval turn turns last w ready rest waits = rest none last w ready
  turn-Ended follow interval turn turns last w ready rest fails =
      ((ready, sym (append-nil _)), refl)
  turn-Ended follow interval turn turns last w ready rest (reads r) =
      read_body-Ended follow interval turn.time turns last w r ready rest (readline turn r) _ _

  run_turns-Ended :
      (follow : Bool) (interval : F) (turns : List (Turn F)) → Rest follow interval turns
  unfolding run_turns states_read
  run_turns-Ended follow interval [] reader last w ready = ((ready, sym (append-nil _)), refl)
  run_turns-Ended follow interval (turn ∷ turns) reader last w ready =
      turn-Ended follow interval turn turns last w ready (run_turns-Ended follow interval turns)
        (reader_of turn.at_path turn.opens reader)

  -- From a store with a database path, whose waiting states are in memory, and if no insertion raises:
  -- `run` ends with the states that it read in the database, behind the rows that were there and the
  -- states that waited; no state waits any more, and it does not raise unless an `open` fails.
  pub run-states_read :
      (follow : Bool) (interval start : F) (turns : List (Turn F)) (w : World F J D)
      → IsReady w
      → let (w', outcome) = run parser codec sql bytes follow interval turns start w in
        let (states, failed) = states_read parser bytes follow turns none in
        (sql.rows w'.db ≡ settled codec sql w ++ map (to_row codec sql) states)
        × (w'.store.unflushed ≡ [])
        × (failed ≡ false → outcome ≢ raised)
  unfolding run
  run-states_read follow interval start turns w ready =
      let ((ready', after), exception) = run_turns-Ended follow interval turns none start w ready in
      let (w', exc) = run_turns parser codec sql bytes follow interval turns none start w in
      let (_, same, empty, returns) =
        flush_world-settled parser codec sql laws reliable w' ready' in
      let last = (flush_world parser codec sql w').0 in
      (
        sym (append-nil (sql.rows last.db))
            ∙ ap (λ us. sql.rows last.db ++ map (row_of codec sql last.heap) us) (sym empty)
            ∙ same
            ∙ after,
        empty,
        λ fine failed. returned≢raised (
            sym returns
            ∙ sym (
                ap (λ b. if b then raised else (flush_world parser codec sql w').1)
                  (exception ∙ fine))
            ∙ failed),
      )

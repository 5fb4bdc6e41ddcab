-- ===== src/Telemetry/Rotation.antt =====
-- `run` of forecasting/telemetry_collector.py on a log file that is replaced by another one.
use turbo_sh.Common.{
  ℕ, zero, suc, ◌+◌, ◌≡◌, ◌≢◌, ◌⊎◌, inl, inr, refl, sym, ap, ◌∙◌, String, List, [], ◌∷◌, ◌++◌, map,
  Bool, true, false, not, ◌&&◌, append-nil, append_assoc, Option, none, some, take, length,
  length-append, get_elem?, All, Float, arith,
}
use mathlib.Core.Path.{ap₂, subst, subst⁻¹}
use turbo_sh.NetworkState.{NetworkState}
use turbo_sh.Persistence.{Codec, Row, Sqlite, raised, to_row}
use turbo_sh.Persistence.Flush.{IsDatabase}
use turbo_sh.Serialization.{Parser}
use turbo_sh.Telemetry.{
  World, File, Reader, Turn, Opening, waits, fails, reads, is_none, line_state, reader_of, readline,
  rotated, behind, parse_line, run,
}
use turbo_sh.Telemetry.Ingestion.{states_of, settled, IsReady, parsed}
use turbo_sh.Telemetry.Turns.{states_read, behind_states, run-states_read}

abbrev pub bytes_of : (String → ℕ) → List String → ℕ
bytes_of bytes [] = 0
bytes_of bytes (line ∷ lines) = bytes line + bytes_of bytes lines

-- A turn sees the file at the path, which can be opened and holds the lines.
pub record Sees {ℓ} {F : Type ℓ} (bytes : String → ℕ) (file : File) (lines : List String)
    (turn : Turn F) : Type ℓ where
  pub at_path : turn.at_path ≡ some file
  pub opens : turn.opens ≡ true
  pub content : turn.content file.handle ≡ lines
  pub size : file.size ≡ bytes_of bytes lines

-- The reader of a file behind some of its lines.
abbrev at : (String → ℕ) → File → List String → Reader
at bytes file seen = record {
  file = file.handle;
  lines_read = length seen;
  position = bytes_of bytes seen;
  last_inode = file.inode;
  last_ctime = file.ctime;
}

bytes_of-append :
    (bytes : String → ℕ) (xs ys : List String)
    → bytes_of bytes (xs ++ ys) ≡ bytes_of bytes xs + bytes_of bytes ys
bytes_of-append bytes [] ys = omega arith
bytes_of-append bytes (x ∷ xs) ys = let rest = bytes_of-append bytes xs ys in omega arith

get_elem?-append-nil : (seen : List String) → get_elem? (seen ++ []) (length seen) ≡ none
get_elem?-append-nil [] = refl
get_elem?-append-nil (x ∷ seen) = get_elem?-append-nil seen

get_elem?-append-cons :
    (seen : List String) (line : String) (unread : List String)
    → get_elem? (seen ++ line ∷ unread) (length seen) ≡ some line
get_elem?-append-cons [] line unread = refl
get_elem?-append-cons (x ∷ seen) line unread = get_elem?-append-cons seen line unread

rotated-same :
    (bytes : String → ℕ) (file : File) (seen unread : List String)
    → file.size ≡ bytes_of bytes (seen ++ unread)
    → rotated file (at bytes file seen) ≡ false
unfolding rotated
rotated-same bytes file seen unread e =
    let total = bytes_of-append bytes seen unread in ground arith

rotated-other :
    (file : File) (reader : Reader)
    → reader.last_inode ≢ 0
    → file.inode ≢ 0
    → file.inode ≢ reader.last_inode
    → rotated file reader ≡ true
unfolding rotated
rotated-other file reader a b c = ground arith

behind-at :
    (bytes : String → ℕ) (file : File) (seen : List String) (line : String)
    → behind bytes (some line) (at bytes file seen) ≡ at bytes file (seen ++ line ∷ [])
behind-at bytes file seen line =
    ap₂ (λ n m. record (at bytes file seen) { lines_read = n; position = m })
      (omega (arith, length-append seen (line ∷ [])))
      (omega (arith, bytes_of-append bytes seen (line ∷ [])))

take-nil {ℓ} : {A : Type ℓ} (n : ℕ) → take {A = A} n [] ≡ []
take-nil zero = refl
take-nil (suc n) = refl

module _ {ℓ} {F J : Type ℓ} ⦃f : Float F⦄ (parser : Parser F J) (bytes : String → ℕ) where
  -- What a turn that follows the file reads, from its line and from its reader.
  abbrev from_line : List (Turn F) → Reader → Option String → List (NetworkState F J) × Bool
  from_line turns r line = elim (is_none line && not true) [
    | true ↦ ([], false)
    | false ↦
        behind_states parser bytes (line_state parser line)
          (states_read parser bytes true turns (some (behind bytes line r)))
  ]

  abbrev from_opening : Turn F → List (Turn F) → Opening → List (NetworkState F J) × Bool
  from_opening turn turns o = elim o [
    | waits ↦ states_read parser bytes true turns none
    | fails ↦ ([], true)
    | reads r ↦ from_line turns r (readline turn r)
  ]

  -- A turn that follows the file, at the end of the file and at a line.
  states_read-end :
      (turn : Turn F) (turns : List (Turn F)) (reader : Option Reader) (r : Reader)
      → reader_of turn.at_path turn.opens reader ≡ reads r
      → readline turn r ≡ none
      → states_read parser bytes true (turn ∷ turns) reader
        ≡ states_read parser bytes true turns (some r)
  unfolding states_read
  states_read-end turn turns reader r e line =
      ap (from_opening turn turns) e ∙ ap (from_line turns r) line

  states_read-line :
      (turn : Turn F) (turns : List (Turn F)) (reader : Option Reader) (r : Reader) (line : String)
      → reader_of turn.at_path turn.opens reader ≡ reads r
      → readline turn r ≡ some line
      → states_read parser bytes true (turn ∷ turns) reader
        ≡ behind_states parser bytes
            (parse_line parser line)
            (states_read parser bytes true turns (some (behind bytes (some line) r)))
  unfolding states_read
  states_read-line turn turns reader r line e found =
      ap (from_opening turn turns) e ∙ ap (from_line turns r) found

  -- States before those that the rest of the turns read.
  abbrev glue :
      List (NetworkState F J) → List (NetworkState F J) × Bool → List (NetworkState F J) × Bool
  glue states (rest, failed) = (states ++ rest, failed)

  glue-append :
      (xs ys : List (NetworkState F J)) (p : List (NetworkState F J) × Bool)
      → glue xs (glue ys p) ≡ glue (xs ++ ys) p
  glue-append xs ys (zs, failed) = ap (λ l. (l, failed)) (sym (append_assoc xs ys zs))

  module _ (file : File) where
    -- With this reader a turn that sees the file goes on behind the lines.
    abbrev Resumes : List String → List String → Option Reader → Type ℓ
    Resumes seen lines reader =
        (turn : Turn F)
        → Sees bytes file lines turn
        → reader_of turn.at_path turn.opens reader ≡ reads (at bytes file seen)

    at-Resumes :
        (seen unread : List String) → Resumes seen (seen ++ unread) (some (at bytes file seen))
    unfolding reader_of
    at-Resumes seen unread turn sees =
        rw (sees.at_path, rotated-same bytes file seen unread sees.size, reader_of) refl

    -- The first turns that see the file read its lines in order, and the others what they read from
    -- the reader that these leave.
    abbrev Walked : List (Turn F) → List (Turn F) → Option Reader → List String → Type ℓ
    Walked turns rest reader unread =
        (reader' : Option Reader) × ((reader' ≡ reader)
          ⊎ ((seen' : List String) × (reader' ≡ some (at bytes file seen'))))
        × (states_read parser bytes true (turns ++ rest) reader
            ≡ glue (parsed parser (take (length turns) unread))
                (states_read parser bytes true rest reader'))

    later :
        (reader' reader : Option Reader) (seen : List String)
        → reader ≡ some (at bytes file seen)
        → ((reader' ≡ reader) ⊎ ((seen' : List String) × (reader' ≡ some (at bytes file seen'))))
        → (seen' : List String) × (reader' ≡ some (at bytes file seen'))
    later reader' reader seen e (inl same) = (seen, same ∙ e)
    later reader' reader seen e (inr found) = found

    walk :
        (turns rest : List (Turn F)) (reader : Option Reader) (seen unread : List String)
        → All (Sees bytes file (seen ++ unread)) turns
        → Resumes seen (seen ++ unread) reader
        → Walked turns rest reader unread
    unfolding readline
    walk [] rest reader seen unread all resumes = (reader, inl refl, refl)
    walk (turn ∷ turns) rest reader seen [] (sees, all) resumes =
        let r = at bytes file seen in
        let line : readline turn r ≡ none =
          ap (λ l. get_elem? l (length seen)) sees.content ∙ get_elem?-append-nil seen in
        let (reader', from, eq) = walk turns rest (some r) seen [] all (at-Resumes seen []) in
        (
          reader',
          inr (later reader' (some r) seen refl from),
          states_read-end turn (turns ++ rest) reader r (resumes turn sees) line
              ∙ eq
              ∙ ap (λ l. glue (parsed parser l) (states_read parser bytes true rest reader'))
                  (take-nil (length turns)),
        )
    walk (turn ∷ turns) rest reader seen (l ∷ unread) (sees, all) resumes =
        let r = at bytes file seen in
        let seen' = seen ++ l ∷ [] in
        let same : seen' ++ unread ≡ seen ++ l ∷ unread = append_assoc seen (l ∷ []) unread in
        let line : readline turn r ≡ some l =
          ap (λ ls. get_elem? ls (length seen)) sees.content
          ∙ get_elem?-append-cons seen l unread in
        let next : Option Reader = some (at bytes file seen') in
        let (reader', from, eq) =
          walk turns rest next seen' unread
            (subst (λ ls. All (Sees bytes file ls) turns) (sym same) all)
            (at-Resumes seen' unread) in
        (
          reader',
          inr (later reader' next seen' refl from),
          states_read-line turn (turns ++ rest) reader r l (resumes turn sees) line
              ∙ ap
                  (λ q.
                    glue (states_of (parse_line parser l))
                      (states_read parser bytes true (turns ++ rest) (some q)))
                  (behind-at bytes file seen l)
              ∙ ap (glue (states_of (parse_line parser l))) eq
              ∙ glue-append (states_of (parse_line parser l))
                  (parsed parser (take (length turns) unread))
                  (states_read parser bytes true rest reader'),
        )

    none-Resumes : (lines : List String) → Resumes [] lines none
    unfolding reader_of
    none-Resumes lines turn sees = rw (sees.at_path, sees.opens, reader_of) refl

  -- The turns that see one file, and those that see another one after it.
  both_files :
      (old new : File) (lines lines' : List String) (turns turns' : List (Turn F))
      → old.inode ≢ 0
      → new.inode ≢ 0
      → new.inode ≢ old.inode
      → All (Sees bytes old lines) turns
      → All (Sees bytes new lines') turns'
      → states_read parser bytes true (turns ++ turns') none ≡ (
        parsed parser (take (length turns) lines) ++ parsed parser (take (length turns') lines'),
        false,
      )
  unfolding reader_of states_read
  both_files old new lines lines' turns turns' a b c all all' =
      let (reader, from, eq) = walk old turns turns' none [] lines all (none-Resumes old lines) in
      let resumes : Resumes new [] lines' reader = elim from [
        | inl same ↦ subst⁻¹ (λ q. Resumes new [] lines' q) same (none-Resumes new lines')
        | inr (seen, behind_old) ↦
            subst⁻¹ (λ q. Resumes new [] lines' q) behind_old
              (λ turn sees.
                rw
                  (sees.at_path, rotated-other new (at bytes old seen) a b c, sees.opens, reader_of)
                  refl)
      ] in
      let (_, _, eq') = walk new turns' [] reader [] lines' all' resumes in
      eq
      ∙ ap (glue (parsed parser (take (length turns) lines)))
          (ap (λ ts. states_read parser bytes true ts reader) (sym (append-nil turns')) ∙ eq')
      ∙ ap (λ l. (parsed parser (take (length turns) lines) ++ l, false))
          (append-nil (parsed parser (take (length turns') lines')))

-- Where the log is replaced while `run` follows it: some turns see one file at the path, and the
-- others another one with a different inode, both of which stay as they are and can be opened. From a
-- store with a database path, whose waiting states are in memory, and if no insertion raises, `run`
-- ends with these states in the database, behind the rows that were there and the states that waited,
-- each once and in order: those of the first file, one line for each of its turns, as far as it goes,
-- then those of the second file from its start. No state waits any more, and `run` does not raise.
pub run-both_files {ℓ} :
    {F J D : Type ℓ} ⦃f : Float F⦄ (parser : Parser F J) (codec : Codec J) (sql : Sqlite (Row F) D)
    (bytes : String → ℕ) (laws : IsDatabase sql)
    (reliable : (db : D) (rs : List (Row F)) → sql.insert_all db rs ≢ none) (interval start : F)
    (old new : File) (lines lines' : List String) (turns turns' : List (Turn F)) (w : World F J D)
    → IsReady w
    → old.inode ≢ 0
    → new.inode ≢ 0
    → new.inode ≢ old.inode
    → All (Sees bytes old lines) turns
    → All (Sees bytes new lines') turns'
    → let (w', outcome) = run parser codec sql bytes true interval (turns ++ turns') start w in
      (sql.rows w'.db
        ≡ settled codec sql w
          ++ map (to_row codec sql) (
              parsed parser (take (length turns) lines)
              ++ parsed parser (take (length turns') lines')))
      × (w'.store.unflushed ≡ [])
      × (outcome ≢ raised)
run-both_files parser codec sql bytes laws reliable interval start old new lines lines' turns turns'
      w ready a b c all all' =
    let (written, empty, fine) =
      run-states_read parser codec sql bytes laws reliable true interval start (turns ++ turns') w
        ready in
    let read = both_files parser bytes old new lines lines' turns turns' a b c all all' in
    (
      written ∙ ap (λ p. settled codec sql w ++ map (to_row codec sql) p.0) read,
      empty,
      fine (ap (λ p. p.1) read),
    )

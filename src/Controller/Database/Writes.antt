-- ===== src/Controller/Database/Writes.antt =====
-- What a run of internal/controller/database_controller.go writes of a database.
use kidp.Prelude.{◌≡◌, subst, ◌⊎◌, inl, inr}
use kidp.Prelude.{[], ◌∷◌, In}
use kidp.Api.Database.{Database}
use kidp.Client.{History, Object, update, update_status, create, event, http, database}

abbrev OfDatabase : (Database → Type 0) → Object → Type 0
OfDatabase P (database db) = P db
OfDatabase P _ = Unit

-- Every database that a history writes has the property.
abbrev pub AllWrites : (Database → Type 0) → History → Type 0
AllWrites P [] = Unit
AllWrites P (update o ∷ h) = OfDatabase P o × AllWrites P h
AllWrites P (update_status o ∷ h) = OfDatabase P o × AllWrites P h
AllWrites P (other ∷ h) = AllWrites P h

-- A history writes the database.
abbrev pub Writes : Database → History → Type 0
Writes db h = In (update (database db)) h ⊎ In (update_status (database db)) h

module _ (P : Database → Type 0) where
  written_whole : (db : Database) (h : History) → AllWrites P h → In (update (database db)) h → P db
  written_whole db [] a i = elim i [ ]
  written_whole db (update o ∷ h) a (inl q) = subst (OfDatabase P) (sent q) a.0
    where
      sent : update (database db) ≡ update o → o ≡ database db
      sent e = cc
  written_whole db (update o ∷ h) a (inr i) = written_whole db h a.1 i
  written_whole db (update_status o ∷ h) a (inl q) = cc
  written_whole db (update_status o ∷ h) a (inr i) = written_whole db h a.1 i
  written_whole db (create o ∷ h) a (inl q) = cc
  written_whole db (create o ∷ h) a (inr i) = written_whole db h a i
  written_whole db (event o k r t e ∷ h) a (inl q) = cc
  written_whole db (event o k r t e ∷ h) a (inr i) = written_whole db h a i
  written_whole db (http r ∷ h) a (inl q) = cc
  written_whole db (http r ∷ h) a (inr i) = written_whole db h a i

  written_status :
      (db : Database) (h : History) → AllWrites P h → In (update_status (database db)) h → P db
  written_status db [] a i = elim i [ ]
  written_status db (update_status o ∷ h) a (inl q) = subst (OfDatabase P) (sent q) a.0
    where
      sent : update_status (database db) ≡ update_status o → o ≡ database db
      sent e = cc
  written_status db (update_status o ∷ h) a (inr i) = written_status db h a.1 i
  written_status db (update o ∷ h) a (inl q) = cc
  written_status db (update o ∷ h) a (inr i) = written_status db h a.1 i
  written_status db (create o ∷ h) a (inl q) = cc
  written_status db (create o ∷ h) a (inr i) = written_status db h a i
  written_status db (event o k r t e ∷ h) a (inl q) = cc
  written_status db (event o k r t e ∷ h) a (inr i) = written_status db h a i
  written_status db (http r ∷ h) a (inl q) = cc
  written_status db (http r ∷ h) a (inr i) = written_status db h a i

  pub Writes-AllWrites : (db : Database) (h : History) → AllWrites P h → Writes db h → P db
  Writes-AllWrites db h a (inl i) = written_whole db h a i
  Writes-AllWrites db h a (inr i) = written_status db h a i

-- ===== src/Leaderboard/Boards.antt =====
-- The map of boards under the methods of the manager.
use Prim.Native.String.{◌++◌ as append}
use challenge_service.Prelude.{
  String, ◌≡◌, ◌≢◌, refl, ◌∙◌, none, some, Option-cases, inl, inr, arith, eq_iff, eq_refl,
}
use challenge_service.GoMap.{
  assign-insert, nil, lookup, delete, insert, lookup-insert, lookup-delete, delete-ne-nil,
}
use challenge_service.Exec.{ok, err, value, error}
use challenge_service.Exec.Laws.{Returns, Result-cases}
use challenge_service.RedisBoard.{RedisBoard, BoardConfig}
use challenge_service.Leaderboard.{Manager, initialize_leaderboard, cleanup_leaderboard, about}

module _ (b : RedisBoard) where
  -- the map of boards has been allocated, as the constructor does
  abbrev pub IsAllocated : Manager b → Type 0
  IsAllocated m = m.boards ≢ nil

  -- the configuration of the board of one challenge
  abbrev config_for : String → Manager b → BoardConfig
  config_for id m = record m.config { namespace = append "challenge_" id }

  module _ (id : String) (m : Manager b) where
    -- `InitializeLeaderboard` does nothing where the challenge has a board.
    pub initialize_leaderboard_again :
        (x : b.Board) → lookup id m.boards ≡ some x → initialize_leaderboard b id m ≡ (ok tt, m)
    unfolding initialize_leaderboard
    initialize_leaderboard_again x h = ground (arith, h)

    initialize_leaderboard_new :
        (x : b.Board)
        → IsAllocated m
        → lookup id m.boards ≡ none
        → (b.new (config_for id m) m.ext).0 ≡ value x
        → initialize_leaderboard b id m ≡ (
          ok tt,
          record m { boards = insert id x m.boards; ext = (b.new (config_for id m) m.ext).1 },
        )
    unfolding initialize_leaderboard
    initialize_leaderboard_new x al absent opened =
        ground (arith, absent, opened, assign-insert id x m.boards al)

    initialize_leaderboard_failed :
        (e : String)
        → lookup id m.boards ≡ none
        → (b.new (config_for id m) m.ext).0 ≡ error e
        → initialize_leaderboard b id m ≡ (
          err (about "failed to create leaderboard for challenge " id e),
          record m { ext = (b.new (config_for id m) m.ext).1 },
        )
    unfolding initialize_leaderboard
    initialize_leaderboard_failed e absent failed = ground (arith, absent, failed)

    cleanup_leaderboard_absent : lookup id m.boards ≡ none → cleanup_leaderboard b id m ≡ (ok tt, m)
    unfolding cleanup_leaderboard
    cleanup_leaderboard_absent h = ground (arith, h)

    cleanup_leaderboard_closed :
        (x : b.Board)
        → lookup id m.boards ≡ some x
        → (b.close x m.ext).0 ≡ value tt
        → cleanup_leaderboard b id m
          ≡ (ok tt, record m { boards = delete id m.boards; ext = (b.close x m.ext).1 })
    unfolding cleanup_leaderboard
    cleanup_leaderboard_closed x h closed = ground (arith, h, closed)

    cleanup_leaderboard_failed :
        (x : b.Board) (e : String)
        → lookup id m.boards ≡ some x
        → (b.close x m.ext).0 ≡ error e
        → cleanup_leaderboard b id m ≡ (
          err (about "failed to close leaderboard for challenge " id e),
          record m { ext = (b.close x m.ext).1 },
        )
    unfolding cleanup_leaderboard
    cleanup_leaderboard_failed x e h failed = ground (arith, h, failed)

  -- What a manager knows after a method was called for the challenge `id`.
  pub record Managed (id : String) (m m' : Manager b) : Type 0 where
    pub allocated : IsAllocated m'
    pub others : (j : String) → id ≢ j → lookup j m'.boards ≡ lookup j m.boards
    pub config : m'.config ≡ m.config

  module _ (id : String) (m : Manager b) (al : IsAllocated m) where
    Managed-insert :
        (x : b.Board) (t : b.Ext)
        → Managed id m (record m { boards = insert id x m.boards; ext = t })
    unfolding insert
    Managed-insert x t = record {
      allocated = λ e. ground (arith, e);
      others = λ j ne. lookup-insert id j x m.boards ∙ ground (arith, eq_iff id j);
      config = refl;
    }

    Managed-delete : (t : b.Ext) → Managed id m (record m { boards = delete id m.boards; ext = t })
    Managed-delete t = record {
      allocated = delete-ne-nil id m.boards al;
      others = λ j ne. lookup-delete id j m.boards ∙ ground (arith, eq_iff id j);
      config = refl;
    }

    Managed-ext : (t : b.Ext) → Managed id m (record m { ext = t })
    Managed-ext t = record { allocated = al; others = λ j ne. refl; config = refl }

    -- With the map of boards allocated, `InitializeLeaderboard` never panics; if it returns no
    -- error the challenge has a board; and the boards of the other challenges, and the
    -- configuration, stay.
    pub initialize_leaderboard-Managed :
        Managed id m (initialize_leaderboard b id m).1
        × Returns (initialize_leaderboard b id m).0
        × ((initialize_leaderboard b id m).0 ≡ ok tt
            → lookup id (initialize_leaderboard b id m).1.boards ≢ none)
    initialize_leaderboard-Managed = elim (Option-cases (lookup id m.boards)) [
      | inr (x, here) ↦
          rw (initialize_leaderboard_again id m x here)
            (Managed-ext m.ext, ((λ e. cc), λ w e. cc), λ _ gone. ground (arith, here, gone))
      | inl absent ↦ elim (Result-cases (b.new (config_for id m) m.ext).0) [
        | inl (x, new) ↦ rw (initialize_leaderboard_new id m x al absent new) (
          Managed-insert x _,
          ((λ e. cc), λ w e. cc),
          λ _ gone. ground (arith, lookup-insert id id x m.boards, eq_refl id, gone),
        )
        | inr (e, failed) ↦
            rw (initialize_leaderboard_failed id m e absent failed)
              (Managed-ext _, ((λ e. cc), λ w e. cc), λ ok gone. cc)
      ]
    ]

    -- With the map of boards allocated, `CleanupLeaderboard` never panics; if it returns no error
    -- the challenge has no board; and the boards of the other challenges, and the configuration,
    -- stay.
    pub cleanup_leaderboard-Managed :
        Managed id m (cleanup_leaderboard b id m).1
        × Returns (cleanup_leaderboard b id m).0
        × ((cleanup_leaderboard b id m).0 ≡ ok tt
            → lookup id (cleanup_leaderboard b id m).1.boards ≡ none)
    cleanup_leaderboard-Managed = elim (Option-cases (lookup id m.boards)) [
      | inl absent ↦
          rw (cleanup_leaderboard_absent id m absent)
            (Managed-ext m.ext, ((λ e. cc), λ w e. cc), λ _. absent)
      | inr (x, here) ↦ elim (Result-cases (b.close x m.ext).0) [
        | inl (_, closed) ↦ rw (cleanup_leaderboard_closed id m x here closed) (
          Managed-delete _,
          ((λ e. cc), λ w e. cc),
          λ _. lookup-delete id id m.boards ∙ ground (arith, eq_refl id),
        )
        | inr (e, failed) ↦
            rw (cleanup_leaderboard_failed id m x e here failed)
              (Managed-ext _, ((λ e. cc), λ w e. cc), λ h. cc)
      ]
    ]

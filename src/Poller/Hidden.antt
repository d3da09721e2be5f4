-- ===== src/Poller/Hidden.antt =====
-- Paths that the polls pass over do not get into the index.
use stratosync.Common.{ℕ, ◌≡◌, refl, String, Bool, false, List, [], ◌∷◌, arith, some_of, update}
use stratosync.State.Tables.{FileRow, Db}
use stratosync.State.Statement
use stratosync.State.Statement.{at_path, at_inode, at_item, next_inode}
use stratosync.State.Rows.{some_of-append, some_of-reject}
use stratosync.State.Preserve.{Keeps}

module _ (m : ℕ) (path : String) where
  abbrev pub is_there : List FileRow → Bool
  is_there = some_of (at_path m path)

  pub record IsHidden (db : Db) : Type 0 where
    pub hidden : is_there db.files ≡ false

  -- An UPDATE that brings no row to the path.
  updated :
      (p : FileRow → Bool) (f : FileRow → FileRow)
      → ((r : FileRow) → at_path m path r ≡ false → at_path m path (f r) ≡ false)
      → (xs : List FileRow) → is_there xs ≡ false
      → is_there (update p f xs) ≡ false
  updated p f same [] h = refl
  updated p f same (x ∷ xs) h = ground (arith, updated p f same xs, same x)

  pub update_files-IsHidden :
      (p : FileRow → Bool) (f : FileRow → FileRow)
      → ((r : FileRow) → at_path m path r ≡ false → at_path m path (f r) ≡ false)
      → Keeps IsHidden (Statement.update_files p f)
  unfolding Statement.update_files
  update_files-IsHidden p f same = record {
    at = λ db h. record {
      hidden = let k = updated p f same db.files h.hidden in ground (arith, h.hidden);
    };
  }

  pub update_keys-IsHidden :
      (i : ℕ) (f : FileRow → FileRow)
      → ((r : FileRow) → at_path m path r ≡ false → at_path m path (f r) ≡ false)
      → Keeps IsHidden (Statement.update_keys i f)
  unfolding Statement.update_keys
  update_keys-IsHidden i f same = record {
    at = λ db h. record {
      hidden = let k = updated (at_inode i) f same db.files h.hidden in ground (arith, h.hidden);
    };
  }

  pub insert_row-IsHidden :
      (r : FileRow) → at_path m path r ≡ false → Keeps IsHidden (Statement.insert_row r)
  unfolding Statement.insert_row
  insert_row-IsHidden r away = record {
    at = λ db h. record {
      hidden = ground (arith, h.hidden, some_of-append (at_path m path) db.files (r ∷ []));
    };
  }

  pub delete_files-IsHidden : (p : FileRow → Bool) → Keeps IsHidden (Statement.delete_files p)
  unfolding Statement.delete_files Statement.cascade
  delete_files-IsHidden p = record {
    at = λ db h. record {
      hidden = ground (arith, h.hidden, some_of-reject p (at_path m path) db.files);
    };
  }
